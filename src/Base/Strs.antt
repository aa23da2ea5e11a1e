-- ===== src/Base/Strs.antt =====
-- The parts of Rust's `str` and `char` that work alike on the bytes and on the characters of a text.
use Prim.Native.Nat.{ℕ, ◌+◌}
use mathlib.Core.Bool.{Bool, true, false, ◌&&◌}
use mathlib.Core.List.{[], ◌∷◌}
use mathlib.Core.Option.{Option, none, some}
use jmux.Base.Tests.{if◌then◌else◌, leb, ◌==◌}
use jmux.Base.Text.{Text}

-- `is_ascii_digit`
abbrev pub is_digit : ℕ → Bool
is_digit c = leb 48 c && leb c 57

-- `to_ascii_lowercase`
abbrev pub to_lowercase : ℕ → ℕ
to_lowercase c = if leb 65 c && leb c 90 then c + 32 else c

abbrev pub starts_with : Text → Text → Bool
starts_with text [] = true
starts_with [] (p ∷ prefix) = false
starts_with (b ∷ text) (p ∷ prefix) = if b == p then starts_with text prefix else false

abbrev pub strip_prefix : Text → Text → Option Text
strip_prefix [] text = some text
strip_prefix (p ∷ ps) [] = none
strip_prefix (p ∷ ps) (c ∷ cs) = let rest = strip_prefix ps cs in if p == c then rest else none

abbrev pub contains : Text → Text → Bool
contains [] [] = true
contains [] (p ∷ needle) = false
contains (c ∷ cs) needle = if starts_with (c ∷ cs) needle then true else contains cs needle
