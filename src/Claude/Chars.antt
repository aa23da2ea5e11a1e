-- ===== src/Claude/Chars.antt =====
-- Texts as lists of characters, and what jmux/src/model/claude_state.rs does with them: white space,
-- lines, and the last lines of a screen (`tail`).
use jmux.Base.{
  ℕ, suc, ◌-◌, ◌==◌, leb, ◌&&◌, ◌||◌, Bool, true, not, List, [], ◌∷◌, ◌++◌, map, if◌then◌else◌,
  length, drop, is_nil,
}
use jmux.Base.Strs.{is_digit, to_lowercase}
use jmux.Graph.Home.{lines_from}

-- The scalar values of the characters.
abbrev pub Chars : Type 0
Chars = List ℕ

-- `char::is_whitespace`
abbrev pub is_whitespace : ℕ → Bool
is_whitespace c =
    (leb 9 c && leb c 13)
    || ((c == 32)
        || ((c == 133)
            || ((c == 160)
                || ((c == 5760)
                    || ((leb 8192 c && leb c 8202)
                        || ((leb 8232 c && leb c 8233)
                            || ((c == 8239) || ((c == 8287) || (c == 12288)))))))))

abbrev pub skip_whitespace : Chars → Chars
skip_whitespace [] = []
skip_whitespace (c ∷ cs) = if is_whitespace c then skip_whitespace cs else c ∷ cs

abbrev strip_whitespace : Chars → Chars
strip_whitespace [] = []
strip_whitespace (c ∷ cs) =
    let rest = strip_whitespace cs in if is_nil rest && is_whitespace c then [] else c ∷ rest

-- `str::trim`
abbrev pub trim_chars : Chars → Chars
trim_chars text = strip_whitespace (skip_whitespace text)

-- `to_ascii_lowercase` of a `str`
abbrev pub lower : Chars → Chars
lower text = map to_lowercase text

abbrev pub lines : Chars → List Chars
lines text = lines_from [] text

-- `join("\n")`
abbrev join_lines : List Chars → Chars
join_lines [] = []
join_lines (l ∷ []) = l
join_lines (l ∷ k ∷ ls) = l ++ 10 ∷ join_lines (k ∷ ls)

unfoldable pub tail : Chars → ℕ → Chars
tail text n = let ls = lines text in join_lines (drop (length ls - n) ls)

-- How many characters the digits at the start are.
abbrev pub count_digits : Chars → ℕ
count_digits [] = 0
count_digits (c ∷ cs) = let rest = suc (count_digits cs) in if is_digit c then rest else 0

-- The character after a match ends a word: `map_or(true, ..)` on the next one.
abbrev pub is_word_end : (ℕ → Bool) → Chars → Bool
is_word_end is_alphanumeric [] = true
is_word_end is_alphanumeric (c ∷ cs) = not (is_alphanumeric c) && not (c == 95)
