-- ===== src/Claude/Pane.antt =====
-- `is_agent_screen`, `is_shell_title` and `is_word_match` (jmux/src/model/claude_state.rs): whether a
-- pane is an agent's or a shell's.
use jmux.Base.{
  ℕ, zero, suc, ◌+◌, ◌-◌, ◌==◌, ltb, ◌&&◌, ◌||◌, Bool, true, false, not, Option, none, some, List,
  [], ◌∷◌, if◌then◌else◌, any, length, drop,
}
use jmux.Base.Strs.{contains, starts_with}
use jmux.Base.Text.{codes}
use jmux.Base.Names.{listed}
use jmux.Claude.Chars.{Chars, trim_chars, lower}
use jmux.Goal.Slug.{is_alphanumeric}

abbrev is_word_byte : ℕ → Bool
is_word_byte c = is_alphanumeric c || (c == 95)

abbrev is_boundary : Chars → Bool
is_boundary [] = true
is_boundary (c ∷ cs) = not (is_word_byte c)

abbrev is_boundary_before : Option ℕ → Bool
is_boundary_before none = true
is_boundary_before (some c) = not (is_word_byte c)

-- The loop; `skip` is the number of characters up to where the search goes on, `last` the character
-- before this one. The word is not empty.
unfoldable pub word_from : Chars → ℕ → Option ℕ → Chars → Bool
word_from word skip last [] = false
word_from word (suc skip) last (c ∷ cs) = word_from word skip (some c) cs
word_from word zero last (c ∷ cs) =
    let found = starts_with (c ∷ cs) word in
    let rest = word_from word (if found then length word - 1 else 0) (some c) cs in
    if found && (is_boundary_before last && is_boundary (drop (length word) (c ∷ cs)))
    then true
    else rest

unfoldable pub is_word_match : Chars → Chars → Bool
unfolding word_from
is_word_match haystack word = word_from word 0 none haystack

abbrev agent_texts : List Chars
agent_texts =
    codes "antigravity"
    ∷ codes "thought process"
    ∷ codes "generating..."
    ∷ codes "esc to cancel"
    ∷ codes "enter/esc to cancel"
    ∷ codes "activated bash mode"
    ∷ codes "? for shortcuts"
    ∷ codes "> you:"
    ∷ codes "claude code"
    ∷ codes "esc to interrupt"
    ∷ []

unfoldable pub is_agent_screen : Chars → Bool
unfolding is_word_match
is_agent_screen text =
    any (contains (lower text)) agent_texts || is_word_match (lower text) (codes "agy")

abbrev agent_names : List Chars
agent_names = codes "claude" ∷ codes "codex" ∷ codes "antigravity" ∷ codes "gemini" ∷ []

abbrev pub shells : List Chars
shells = codes "bash" ∷ codes "zsh" ∷ codes "fish" ∷ codes "sh" ∷ codes "-bash" ∷ codes "-zsh" ∷ []

module _ (alphanumeric : ℕ → Bool) where
  abbrev is_name_char : ℕ → Bool
  is_name_char c = alphanumeric c || ((c == 95) || ((c == 46) || (c == 45)))

  -- The loop over the characters: a name, `@`, a name and a colon.
  unfoldable pub is_host_title : Bool → ℕ → ℕ → Chars → Bool
  is_host_title seen_at before after [] = false
  is_host_title seen_at before after (c ∷ cs) =
      let at = is_host_title true before after cs in
      let named =
        is_host_title seen_at (if seen_at then before else before + 1)
          (if seen_at then after + 1 else after) cs in
      if c == 58
      then seen_at && ltb 0 after
      else if c == 64
      then not (seen_at || (before == 0)) && at
      else if is_name_char c
      then named
      else false

  unfoldable pub is_shell_title : Chars → Bool
  unfolding is_word_match is_host_title
  is_shell_title title =
      let t = trim_chars title in
      let low = lower t in
      if any (contains low) agent_names || is_word_match low (codes "agy")
      then false
      else if listed shells low
      then true
      else is_host_title false 0 0 t
