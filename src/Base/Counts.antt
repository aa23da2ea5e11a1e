-- ===== src/Base/Counts.antt =====
-- How often an identifier stands in a list: the measure by which the layout lemmas are stated.
use Prim.Native.Nat.{ℕ, zero, suc, ◌+◌}
use mathlib.Core.Path.{◌≡◌, refl}
use mathlib.Core.Bool.{Bool, true, false}
use mathlib.Core.List.{List, [], ◌∷◌, ◌++◌}
use mathlib.Core.Option.{none, some}
use native.Mathlib.Omega.{arith}
use jmux.Base.Tests.{if◌then◌else◌, ltb, ◌==◌}
use jmux.Base.Lists.{position, erase_idx, insert_idx}

abbrev pub one_if : Bool → ℕ
one_if true = 1
one_if false = 0

abbrev pub count : ℕ → List ℕ → ℕ
count a [] = 0
count a (x ∷ xs) = one_if (x == a) + count a xs

abbrev pub contains : List ℕ → ℕ → Bool
contains [] a = false
contains (x ∷ xs) a = if x == a then true else contains xs a

pub count-append :
    (a : ℕ) (first second : List ℕ) → count a (first ++ second) ≡ count a first + count a second
count-append a [] second = omega arith
count-append a (id ∷ first) second = omega (arith, count-append a first second)

pub contains-count : (xs : List ℕ) (a : ℕ) → contains xs a ≡ ltb 0 (count a xs)
contains-count [] a = refl
contains-count (x ∷ xs) a = ground (arith, contains-count xs a)

pub count-position-none : (a : ℕ) (xs : List ℕ) → position (λ x. x == a) xs ≡ none → count a xs ≡ 0
count-position-none a [] h = refl
count-position-none a (x ∷ xs) h = ground (arith, count-position-none a xs)

-- Taking out the element at the position of `a` lowers the count of `a` alone, by one.
pub count-erase_idx :
    (b a : ℕ) (xs : List ℕ) (i : ℕ)
    → position (λ x. x == a) xs ≡ some i
    → count b (erase_idx xs i) + one_if (a == b) ≡ count b xs
count-erase_idx b a [] i h = ground arith
count-erase_idx b a (x ∷ xs) zero h = ground arith
count-erase_idx b a (x ∷ xs) (suc i) h = ground (arith, count-erase_idx b a xs i)

pub count-insert_idx :
    (b : ℕ) (xs : List ℕ) (i a : ℕ) → count b (insert_idx xs i a) ≡ count b xs + one_if (a == b)
count-insert_idx b xs zero a = omega arith
count-insert_idx b [] (suc i) a = omega arith
count-insert_idx b (x ∷ xs) (suc i) a = omega (arith, count-insert_idx b xs i a)
