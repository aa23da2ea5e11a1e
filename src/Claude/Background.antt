-- ===== src/Claude/Background.antt =====
-- `is_background_running` (jmux/src/model/claude_state.rs): a shell or an agent in the background.
use jmux.Base.{
  ℕ, ◌==◌, ltb, ◌&&◌, ◌||◌, Bool, true, false, not, none, some, [], ◌∷◌, if◌then◌else◌, drop,
  length, is_nil, get_or_else,
}
use jmux.Base.Strs.{contains, starts_with, strip_prefix}
use jmux.Base.Text.{codes}
use jmux.Claude.Chars.{Chars, skip_whitespace, lower, count_digits, is_word_end}

abbrev is_agent_count : Chars → Bool
is_agent_count rest =
    let behind = drop (count_digits rest) rest in
    ltb 0 (count_digits rest)
    && (starts_with behind (codes " background agent")
        || starts_with behind (codes " background task"))

-- At each place where `waiting for ` stands.
unfoldable pub waiting_for_background_agents : Chars → Bool
waiting_for_background_agents [] = false
waiting_for_background_agents (c ∷ cs) =
    let rest = waiting_for_background_agents cs in
    elim (strip_prefix (codes "waiting for ") (c ∷ cs)) [
      | none ↦ rest
      | some behind ↦ if is_agent_count behind then true else rest
    ]

abbrev is_row : Chars → Bool
is_row rest =
    let trimmed = skip_whitespace rest in
    ltb (length trimmed) (length rest)
    && (not (is_nil trimmed) && not (starts_with trimmed (codes "\n")))

unfoldable pub has_subagent_row : Chars → Bool
has_subagent_row [] = false
has_subagent_row (c ∷ cs) =
    let rest = has_subagent_row cs in if (c == 9711) && is_row cs then true else rest

abbrev is_still_running : Chars → Bool
is_still_running low =
    contains low (codes "shell still running")
    || (contains low (codes "shells still running")
        || (contains low (codes "task still running")
            || contains low (codes "tasks still running")))

module _ (is_alphanumeric : ℕ → Bool) where
  -- The text before `shell`, backwards: a space, and digits that begin a word.
  abbrev is_count_before : Chars → Bool
  is_count_before [] = false
  is_count_before (c ∷ before) =
      (c == 32)
      && (ltb 0 (count_digits before)
          && is_word_end is_alphanumeric (drop (count_digits before) before))

  abbrev is_end_behind : Chars → Bool
  is_end_behind rest =
      is_word_end is_alphanumeric (get_or_else (strip_prefix (codes "s") rest) rest)

  -- At each place where `shell` stands; `before` is the text up to here, backwards.
  unfoldable pub shell_count_from : Chars → Chars → Bool
  shell_count_from before [] = false
  shell_count_from before (c ∷ cs) =
      let later = shell_count_from (c ∷ before) cs in
      elim (strip_prefix (codes "shell") (c ∷ cs)) [
        | none ↦ later
        | some rest ↦ if is_count_before before && is_end_behind rest then true else later
      ]

  unfoldable pub has_shell_count : Chars → Bool
  unfolding shell_count_from
  has_shell_count low = shell_count_from [] low

  unfoldable pub is_background_running : Chars → Bool
  unfolding has_shell_count waiting_for_background_agents has_subagent_row
  is_background_running live =
      is_still_running (lower live)
      || (contains live (codes "↓ to manage")
          || (has_shell_count (lower live)
              || (waiting_for_background_agents (lower live) || has_subagent_row live)))
