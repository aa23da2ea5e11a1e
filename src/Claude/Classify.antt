-- ===== src/Claude/Classify.antt =====
-- `classify` (jmux/src/model/claude_state.rs).
use jmux.Base.{ℕ, Bool, Option, none, some, ◌||◌, if◌then◌else◌}
use jmux.Claude.Chars.{Chars, tail}
use jmux.Claude.Menu.{has_pointer_menu, has_menu_footer}
use jmux.Claude.Turn.{is_active_turn}
use jmux.Claude.Background.{is_background_running}
use jmux.Claude.Question.{last_response_is_question}

pub data ClaudeState : Type 0 where
  waiting working needs_input : ClaudeState

unfoldable pub classify : (ℕ → Bool) → Chars → Chars → Option ClaudeState
unfolding has_pointer_menu has_menu_footer tail is_active_turn is_background_running
    last_response_is_question
classify is_alphanumeric text raw_title =
    if has_pointer_menu text || has_menu_footer text
    then some needs_input
    else if is_active_turn is_alphanumeric (tail text 12) raw_title
    then some working
    else if is_background_running is_alphanumeric (tail text 12)
    then some waiting
    else if last_response_is_question text
    then some needs_input
    else none
