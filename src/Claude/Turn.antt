-- ===== src/Claude/Turn.antt =====
-- `is_active_turn` (jmux/src/model/claude_state.rs): a spinner in the title, a hint in the text, a
-- spinner line or a timer. `is_alphanumeric` is `char::is_alphanumeric`, which goes by the tables of
-- Unicode.
use jmux.Base.{
  ℕ, zero, suc, ◌==◌, ltb, leb, ◌&&◌, ◌||◌, Bool, true, false, not, List, [], ◌∷◌, if◌then◌else◌,
  drop, any, length,
}
use jmux.Base.Strs.{contains, starts_with}
use jmux.Base.Text.{codes}
use jmux.Claude.Chars.{Chars, skip_whitespace, trim_chars, lower, lines, count_digits, is_word_end}

abbrev is_braille : ℕ → Bool
is_braille c = leb 10240 c && leb c 10495

abbrev is_spinner_glyph : ℕ → Bool
is_spinner_glyph c = is_braille c || any (λ g. c == g) (codes "◐◓◑◒")

-- `trim_start_matches(is_spinner_glyph)`
abbrev skip_spinner : Chars → Chars
skip_spinner [] = []
skip_spinner (c ∷ cs) = if is_spinner_glyph c then skip_spinner cs else c ∷ cs

unfoldable pub strip_spinner : Chars → Chars
strip_spinner title =
    let rest = skip_spinner title in
    if length rest == length title then title else skip_whitespace rest

abbrev starts_with_spinner : Chars → Bool
starts_with_spinner [] = false
starts_with_spinner (c ∷ cs) = is_spinner_glyph c

abbrev has_hint : Chars → Bool
has_hint low =
    contains low (codes "esc to interrupt")
    || (contains low (codes "esc to cancel")
        || (contains low (codes "enter/esc to cancel") || contains low (codes "generating...")))

abbrev spinner_words : List Chars
spinner_words =
    codes "thinking"
    ∷ codes "thought"
    ∷ codes "generating"
    ∷ codes "tool:"
    ∷ codes "to cancel"
    ∷ codes "signing in"
    ∷ codes "working"
    ∷ codes "running"
    ∷ []

abbrev is_spinner_line : Chars → Bool
is_spinner_line line =
    let s = trim_chars line in
    let low = lower s in
    any is_spinner_glyph s
    && (any (contains low) spinner_words && not (contains low (codes "crunched for")))

unfoldable pub has_live_spinner : Chars → Bool
has_live_spinner live = any is_spinner_line (lines live)

-- Behind `(`, digits, `m` and a space: digits and `s`.
abbrev is_seconds : Chars → ℕ → Bool
is_seconds cs digits = ltb 0 digits && starts_with (drop digits cs) (codes "s")

abbrev is_minutes : Chars → Bool
is_minutes [] = false
is_minutes (c ∷ cs) = (c == 32) && is_seconds cs (count_digits cs)

module _ (is_alphanumeric : ℕ → Bool) where
  -- Behind `(` and digits.
  abbrev is_unit : Chars → Bool
  is_unit [] = false
  is_unit (c ∷ cs) = ((c == 109) && is_minutes cs) || ((c == 115) && is_word_end is_alphanumeric cs)

  -- Behind `(`.
  abbrev is_timer : Chars → Bool
  is_timer cs = ltb 0 (count_digits cs) && is_unit (drop (count_digits cs) cs)

  -- The loop over the characters; `skip` is the number of those up to where it goes on.
  unfoldable pub timer_from : ℕ → Chars → Bool
  timer_from skip [] = false
  timer_from (suc skip) (c ∷ cs) = timer_from skip cs
  timer_from zero (c ∷ cs) =
      let rest = timer_from (if c == 40 then count_digits cs else 0) cs in
      if (c == 40) && is_timer cs then true else rest

  unfoldable pub has_live_timer : Chars → Bool
  has_live_timer s = timer_from 0 s

  unfoldable pub is_active_turn : Chars → Chars → Bool
  unfolding has_live_spinner has_live_timer
  is_active_turn live raw_title =
      starts_with_spinner (skip_whitespace raw_title)
      || (has_hint (lower live) || (has_live_spinner live || has_live_timer live))
