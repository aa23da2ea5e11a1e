-- ===== src/Tests/Screens.antt =====
-- Screens of agents, and the theorems on them applied.
use jmux.Base.{◌≡◌, refl, ◌↔◌, any, keep_last, Option, none, some, true, false}
use jmux.Base.Text.{codes}
use jmux.Claude.Chars.{Chars, tail, lines}
use jmux.Claude.Menu.{has_pointer_menu, has_menu_footer, menu_from, numbered, parse_option}
use jmux.Claude.Turn.{is_active_turn, timer_from, has_live_timer, has_live_spinner, strip_spinner}
use jmux.Claude.Background.{
  is_background_running, shell_count_from, has_shell_count, has_subagent_row,
  waiting_for_background_agents,
}
use jmux.Claude.Question.{last_response_is_question, recent_from, is_question}
use jmux.Claude.Pane.{is_agent_screen, is_shell_title, is_word_match, word_from, is_host_title}
use jmux.Claude.Classify.{ClaudeState, working, waiting, needs_input, classify}
use jmux.Claude.Options.{Menu, has_pointer_menu-Menu}
use jmux.Claude.Recent.{response, last_response_is_question-last_four}
use jmux.Goal.Slug.{is_alphanumeric}

abbrev classified : Chars → Chars → Option ClaudeState
unfolding classify has_pointer_menu menu_from numbered parse_option has_menu_footer tail
    is_active_turn timer_from has_live_timer has_live_spinner is_background_running shell_count_from
    has_shell_count has_subagent_row waiting_for_background_agents last_response_is_question
    recent_from
classified text title = classify is_alphanumeric text title

screens :
    (classified (codes "") (codes "⠋ Fixing the bug") ≡ some working)
    × (classified (codes "") (codes "✳ Fixing the bug") ≡ none)
    × (classified (codes "✢ Accomplishing… (1m 8s · ↓ 2.4k tokens)") (codes "") ≡ some working)
    × (classified (codes "✢ Pondering… (42s · esc)") (codes "") ≡ some working)
    × (classified (codes "✳ Crunched for 2m 15s\n❯") (codes "") ≡ none)
    × (classified (codes "· 1 shell · ↓ to manage\n❯") (codes "") ≡ some waiting)
    × (classified (codes "2 shells still running\n❯") (codes "") ≡ some waiting)
    × (classified (codes "waiting for 2 background agents to finish\n❯") (codes "") ≡ some waiting)
    × (classified (codes "◯ general-purpose … 5m 26s · ↓ 48.4k tokens\n❯") (codes "")
        ≡ some waiting)
unfolding classified
screens = (refl, refl, refl, refl, refl, refl, refl, refl, refl)

menus :
    (classified
        (codes "Do you want to proceed?\n❯ 1. Yes\n  2. Yes, and don't ask again\n  3. No\n")
        (codes "")
      ≡ some needs_input)
    × (classified (codes "Here are the steps:\n  1. Build\n  2. Test\n  3. Ship\n❯") (codes "")
        ≡ none)
    × (classified
          (codes "Which approach?\n  1. Fast\n  2. Thorough\nenter to select · esc to cancel\n")
          (codes "")
        ≡ some needs_input)
unfolding classified
menus = (refl, refl, refl)

questions :
    (classified (codes "I fixed the bug in main.rs.\nWant me to also add a test?\n❯") (codes "")
      ≡ some needs_input)
    × (classified (codes "let x = cond ?: b;\n❯") (codes "") ≡ none)
    × (classified (codes "see https://example.com?foo=bar\n❯") (codes "") ≡ none)
unfolding classified
questions = (refl, refl, refl)

titles :
    (is_shell_title is_alphanumeric (codes "jbriggs@bigboy:~/src") ≡ true)
    × (is_shell_title is_alphanumeric (codes "  zsh  ") ≡ true)
    × (is_shell_title is_alphanumeric (codes "claude") ≡ false)
    × (is_shell_title is_alphanumeric (codes "fix the sidebar @ home: part 2") ≡ false)
    × (is_shell_title is_alphanumeric (codes "agy -p 'fix bug'") ≡ false)
    × (is_agent_screen (codes "running agy in terminal") ≡ true)
    × (strip_spinner (codes "⠼ Review spec | torrent-to-plex")
        ≡ codes "Review spec | torrent-to-plex")
unfolding is_shell_title is_word_match word_from is_host_title is_agent_screen strip_spinner
titles = (refl, refl, refl, refl, refl, refl, refl)

abbrev prompt : Chars
prompt = codes "Proceed?\n1. Yes\n❯ 1. Yes\n  2. No\n"

has_pointer_menu-Menu_example : (has_pointer_menu prompt ≡ true) ↔ Menu (lines prompt)
has_pointer_menu-Menu_example = has_pointer_menu-Menu prompt

menu_behind : has_pointer_menu prompt ≡ true
unfolding has_pointer_menu menu_from numbered parse_option
menu_behind = refl

last_response_is_question-last_four_example :
    last_response_is_question prompt ≡ any is_question (keep_last 4 (response (lines prompt)))
last_response_is_question-last_four_example = last_response_is_question-last_four prompt
