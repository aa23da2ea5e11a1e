-- ===== src/Graph/Space.antt =====
-- `str::trim` on UTF-8 texts, as the goals use it (jmux/src/goal/graph.rs, jmux/src/goal/mod.rs).
use jmux.Base.{ℕ, ◌==◌, leb, ◌&&◌, ◌||◌, Bool, true, false, [], ◌∷◌, if◌then◌else◌}
use jmux.Base.Text.{Text}

-- How far a character of Unicode's White_Space is read.
pub data Space : Type 0 where
  between after_c2 after_e1 after_e1_9a after_e2 after_e2_80 after_e2_81 after_e3 after_e3_80 :
      Space
  visible : Space

-- `c` is between `lo` and `hi`.
abbrev is_in : ℕ → ℕ → ℕ → Bool
is_in lo hi c = leb lo c && leb c hi

abbrev pub read_space : Space → ℕ → Space
read_space between b =
    if is_in 9 13 b || (b == 32)
    then between
    else if b == 194
    then after_c2
    else if b == 225
    then after_e1
    else if b == 226
    then after_e2
    else if b == 227
    then after_e3
    else visible
read_space after_c2 b = if b == 133 || (b == 160) then between else visible
read_space after_e1 b = if b == 154 then after_e1_9a else visible
read_space after_e1_9a b = if b == 128 then between else visible
read_space after_e2 b = if b == 128 then after_e2_80 else if b == 129 then after_e2_81 else visible
read_space after_e2_80 b =
    if is_in 128 138 b || (is_in 168 169 b || (b == 175)) then between else visible
read_space after_e2_81 b = if b == 159 then between else visible
read_space after_e3 b = if b == 128 then after_e3_80 else visible
read_space after_e3_80 b = if b == 128 then between else visible
read_space visible b = visible

abbrev is_blank_from : Space → Text → Bool
is_blank_from between [] = true
is_blank_from s [] = false
is_blank_from s (b ∷ bs) = is_blank_from (read_space s b) bs

-- `trim().is_empty()`
abbrev pub is_blank : Text → Bool
is_blank text = is_blank_from between text

-- `trim_start()`: from the first character that is no space. `here` is where the character that is
-- being read begins.
abbrev trim_from : Text → Space → Text → Text
trim_from here between [] = []
trim_from here s [] = here
trim_from here s (b ∷ bs) = elim (read_space s b) [
  | between ↦ trim_from bs between bs
  | visible ↦ here
  | s' ↦ trim_from here s' bs
]

abbrev trim_start : Text → Text
trim_start text = trim_from text between text

-- `trim_end()`: without the longest end that is blank.
abbrev trim_end : Text → Text
trim_end [] = []
trim_end (b ∷ bs) = let rest = trim_end bs in if is_blank (b ∷ bs) then [] else b ∷ rest

abbrev pub trim : Text → Text
trim text = trim_end (trim_start text)
