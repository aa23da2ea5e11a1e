-- ===== src/Claude/Question.antt =====
-- `last_response_is_question` (jmux/src/model/claude_state.rs): whether one of the last four lines of
-- the response asks something.
use jmux.Base.{
  ℕ, zero, suc, ◌+◌, ◌%◌, ◌==◌, ◌&&◌, ◌||◌, Bool, true, false, Option, none, some, List, [], ◌∷◌,
  map, if◌then◌else◌, any, all,
}
use jmux.Base.Strs.{contains}
use jmux.Base.Text.{codes}
use jmux.Claude.Chars.{Chars, is_whitespace, trim_chars, lower, lines}

abbrev is_one_of : Chars → ℕ → Bool
is_one_of glyphs c = any (λ g. g == c) glyphs

abbrev chrome_glyphs : Chars
chrome_glyphs = codes "✻✶✳✢✣※⏵◯●◻◼✔⎿│⚙"

abbrev chrome_text : List Chars
chrome_text =
    codes "for shortcuts"
    ∷ codes "esc to interrupt"
    ∷ codes "esc to cancel"
    ∷ codes "thought process"
    ∷ codes "generating..."
    ∷ codes "auto mode on"
    ∷ codes "ctrl+t"
    ∷ codes "for agents"
    ∷ codes "tokens"
    ∷ codes "completed"
    ∷ []

-- `replace('\u{a0}', " ")`, and `trim`
abbrev pub cleaned : Chars → Chars
cleaned raw = trim_chars (map (λ c. if c == 160 then 32 else c) raw)

abbrev is_prompt : Chars → Bool
is_prompt [] = true
is_prompt (c ∷ []) = is_one_of (codes "❯›▶") c
is_prompt (c ∷ d ∷ cs) = false

abbrev starts_with_glyph : Chars → Bool
starts_with_glyph [] = false
starts_with_glyph (c ∷ cs) = is_one_of chrome_glyphs c

-- A line that is no part of the response.
abbrev pub is_chrome : Chars → Bool
is_chrome s =
    is_prompt s
    || (all (is_one_of (codes "─—-=_ │")) s
        || (starts_with_glyph s || any (contains (lower s)) chrome_text))

-- The array `recent`.
pub record Recent : Type 0 where
  pub first : Option Chars
  pub second : Option Chars
  pub third : Option Chars
  pub fourth : Option Chars

abbrev pub no_lines : Recent
no_lines = record { first = none; second = none; third = none; fourth = none }

-- `recent[slot] = Some(s)`, for a slot below four.
abbrev pub store_line : Recent → ℕ → Chars → Recent
store_line r zero s = record r { first = some s }
store_line r (suc zero) s = record r { second = some s }
store_line r (suc (suc zero)) s = record r { third = some s }
store_line r (suc (suc (suc i))) s = record r { fourth = some s }

-- The loop over the lines.
unfoldable pub recent_from : Recent → ℕ → List Chars → Recent
recent_from r idx [] = r
recent_from r idx (raw ∷ raws) =
    let s = cleaned raw in
    let skipped = recent_from r idx raws in
    let kept = recent_from (store_line r (idx % 4) s) (idx + 1) raws in
    if is_chrome s then skipped else kept

-- A question mark before white space or the end.
abbrev pub is_question : Chars → Bool
is_question [] = false
is_question (c ∷ []) = c == 63
is_question (c ∷ d ∷ cs) =
    let rest = is_question (d ∷ cs) in if (c == 63) && is_whitespace d then true else rest

abbrev pub asks : Option Chars → Bool
asks none = false
asks (some line) = is_question line

abbrev pub any_asks : Recent → Bool
any_asks r = asks r.first || (asks r.second || (asks r.third || asks r.fourth))

unfoldable pub last_response_is_question : Chars → Bool
unfolding recent_from
last_response_is_question text = any_asks (recent_from no_lines 0 (lines text))
