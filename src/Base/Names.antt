-- ===== src/Base/Names.antt =====
-- Lists of texts: how often a text stands in one, and `HashSet<&str>`.
use Prim.Native.Nat.{ℕ, ◌+◌, ◌≤◌, ◌<◌}
use mathlib.Core.Path.{◌≡◌, refl, ap}
use mathlib.Core.Logic.{inl, inr, ◌≢◌}
use mathlib.Core.Bool.{Bool, true, false, not}
use mathlib.Core.List.{List, [], ◌∷◌, ◌++◌}
use native.Mathlib.Omega.{arith}
use jmux.Base.Tests.{if◌then◌else◌, ltb, Bool-cases}
use jmux.Base.Lists.{length, retain}
use jmux.Base.Counts.{one_if}
use jmux.Base.Text.{Text, text_eq, text_eq→eq, text_eq_refl}

abbrev pub times : Text → List Text → ℕ
times a [] = 0
times a (x ∷ xs) = one_if (text_eq x a) + times a xs

-- `contains(a)`
abbrev pub listed : List Text → Text → Bool
listed [] a = false
listed (x ∷ xs) a = if text_eq x a then true else listed xs a

-- The set of a list's texts, each once.
abbrev pub to_set : List Text → List Text
to_set [] = []
to_set (x ∷ xs) = let rest = to_set xs in if listed xs x then rest else x ∷ rest

pub text_eq_comm : (a b : Text) → text_eq a b ≡ text_eq b a
text_eq_comm [] [] = refl
text_eq_comm [] (y ∷ b) = refl
text_eq_comm (x ∷ a) [] = refl
text_eq_comm (x ∷ a) (y ∷ b) = ground (arith, text_eq_comm a b)

pub listed-times : (xs : List Text) (a : Text) → listed xs a ≡ ltb 0 (times a xs)
listed-times [] a = refl
listed-times (x ∷ xs) a = ground (arith, listed-times xs a)

pub times-append : (a : Text) (xs ys : List Text) → times a (xs ++ ys) ≡ times a xs + times a ys
times-append a [] ys = omega arith
times-append a (x ∷ xs) ys = omega (arith, times-append a xs ys)

-- A test that equal texts share keeps all of a text or none of it.
pub times-retain :
    (p : Text → Bool) (a : Text) (xs : List Text)
    → times a (retain p xs) ≡ (if p a then times a xs else 0)
times-retain p a [] = ground arith
times-retain p a (x ∷ xs) = elim (Bool-cases (text_eq x a)) [
  | inl same ↦ ground (arith, times-retain p a xs, ap p (text_eq→eq x a same))
  | inr other ↦ ground (arith, times-retain p a xs)
]

length-retain-times :
    (a : Text) (xs : List Text)
    → length xs ≡ times a xs + length (retain (λ x. not (text_eq x a)) xs)
length-retain-times a [] = omega arith
length-retain-times a (x ∷ xs) = ground (arith, length-retain-times a xs)

-- A list without duplicates is no longer than one that has all its texts.
pub length-le-of_times :
    (ps qs : List Text)
    → ((a : Text) → times a ps ≤ 1)
    → ((a : Text) → 0 < times a ps → 0 < times a qs)
    → length ps ≤ length qs
length-le-of_times [] qs once sub = omega arith
length-le-of_times (p ∷ ps) [] once sub = absurd (ground (arith, sub p, text_eq_refl p))
length-le-of_times (p ∷ ps) (q ∷ qs) once sub =
    let others = retain (λ x. not (text_eq x q)) (p ∷ ps) in
    let kept : (a : Text) → times a others ≡ (if not (text_eq a q) then times a (p ∷ ps) else 0) =
      λ a. times-retain (λ x. not (text_eq x q)) a (p ∷ ps) in
    omega (
      arith,
      length-retain-times q (p ∷ ps),
      once q,
      length-le-of_times others qs (λ a. ground (arith, kept a, once a))
          (λ a h. ground (arith, kept a, sub a, text_eq_comm a q)),
    )

times-to_set : (a : Text) (xs : List Text) → times a (to_set xs) ≡ one_if (listed xs a)
times-to_set a [] = refl
times-to_set a (x ∷ xs) = elim (Bool-cases (text_eq x a)) [
  | inl same ↦ ground (arith, times-to_set a xs, ap (listed xs) (text_eq→eq x a same))
  | inr other ↦ ground (arith, times-to_set a xs)
]

length-to_set-le : (xs : List Text) → length (to_set xs) ≤ length xs
length-to_set-le [] = omega arith
length-to_set-le (x ∷ xs) = ground (arith, length-to_set-le xs)

-- The set is as large as the list exactly if the list has no duplicate.
pub length-to_set-eq : (xs : List Text) (a : Text) → length (to_set xs) ≡ length xs → times a xs ≤ 1
length-to_set-eq [] a h = omega arith
length-to_set-eq (x ∷ xs) a h = elim (Bool-cases (text_eq x a)) [
  | inl same ↦ ground (
    arith,
    length-to_set-le xs,
    length-to_set-eq xs x,
    listed-times xs x,
    ap (λ t. times t xs) (text_eq→eq x a same),
  )
  | inr other ↦ ground (arith, length-to_set-le xs, length-to_set-eq xs a)
]

length-to_set-once :
    (xs : List Text) → ((a : Text) → times a xs ≤ 1) → length (to_set xs) ≡ length xs
length-to_set-once [] once = refl
length-to_set-once (x ∷ xs) once = ground (
  arith,
  length-to_set-once xs (λ a. omega (arith, once a)),
  once x,
  text_eq_refl x,
  listed-times xs x,
)

pub listed-to_set : (xs : List Text) (a : Text) → listed (to_set xs) a ≡ listed xs a
listed-to_set xs a = ground (arith, times-to_set a xs, listed-times (to_set xs) a)

-- A list that is larger than its set has a text twice.
pub length-to_set-twice :
    (xs : List Text) → length (to_set xs) ≢ length xs → (a : Text) × (1 < times a xs)
length-to_set-twice [] h = absurd (h refl)
length-to_set-twice (x ∷ xs) h = elim (Bool-cases (listed xs x)) [
  | inl again ↦ (x, ground (arith, listed-times xs x, text_eq_refl x))
  | inr new ↦
      let (a, twice) = length-to_set-twice xs (λ e. h (ground arith)) in (a, omega (arith, twice))
]
