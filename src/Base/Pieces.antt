-- ===== src/Base/Pieces.antt =====
-- What a test finds in the pieces of a list, and a list cut in two.
use Prim.Native.Nat.{ℕ, zero, suc, ◌≤◌}
use mathlib.Core.Path.{◌≡◌, refl, ap}
use mathlib.Core.Bool.{Bool, true, ◌||◌, not}
use mathlib.Core.List.{List, [], ◌∷◌, ◌++◌}
use mathlib.Core.Option.{some}
use native.Mathlib.Omega.{arith}
use jmux.Base.Tests.{is_some}
use jmux.Base.Lists.{length, get_elem?, position, any, take, drop, retain, insert_idx}

module _ {ℓ} {A : Type ℓ} where
  pub any-append : (p : A → Bool) (xs ys : List A) → any p (xs ++ ys) ≡ (any p xs || any p ys)
  any-append p [] ys = refl
  any-append p (x ∷ xs) ys = ground (arith, any-append p xs ys)

  pub any-take-drop :
      (p : A → Bool) (k : ℕ) (xs : List A) → (any p (take k xs) || any p (drop k xs)) ≡ any p xs
  any-take-drop p zero xs = refl
  any-take-drop p (suc k) [] = refl
  any-take-drop p (suc k) (x ∷ xs) = ground (arith, any-take-drop p k xs)

  pub any-retain :
      (p q : A → Bool) (xs : List A)
      → (any p (retain q xs) || any p (retain (λ x. not (q x)) xs)) ≡ any p xs
  any-retain p q [] = refl
  any-retain p q (x ∷ xs) = ground (arith, any-retain p q xs)

  pub any-position : (p : A → Bool) (xs : List A) → is_some (position p xs) ≡ any p xs
  any-position p [] = refl
  any-position p (x ∷ xs) = ground (arith, any-position p xs)

  pub any-get_elem? :
      (p : A → Bool) (xs : List A) (i : ℕ) (x : A)
      → get_elem? xs i ≡ some x
      → p x ≡ true
      → any p xs ≡ true
  any-get_elem? p [] i x h k = cc
  any-get_elem? p (y ∷ ys) zero x h k = ground arith
  any-get_elem? p (y ∷ ys) (suc i) x h k = ground (arith, any-get_elem? p ys i x)

  pub take-drop-append : (k : ℕ) (xs : List A) → take k xs ++ drop k xs ≡ xs
  take-drop-append zero xs = refl
  take-drop-append (suc k) [] = refl
  take-drop-append (suc k) (x ∷ xs) = ap (◌∷◌ x) (take-drop-append k xs)

  pub take-insert_idx :
      (k : ℕ) (xs : List A) (m : A)
      → k ≤ length xs
      → take (suc k) (insert_idx xs k m) ≡ take k xs ++ m ∷ []
  take-insert_idx zero xs m h = refl
  take-insert_idx (suc k) [] m h = elim h [ ]
  take-insert_idx (suc k) (x ∷ xs) m h = ap (◌∷◌ x) (take-insert_idx k xs m (omega arith))

  pub drop-insert_idx :
      (k : ℕ) (xs : List A) (m : A) → k ≤ length xs → drop (suc k) (insert_idx xs k m) ≡ drop k xs
  drop-insert_idx zero xs m h = refl
  drop-insert_idx (suc k) [] m h = elim h [ ]
  drop-insert_idx (suc k) (x ∷ xs) m h = drop-insert_idx k xs m (omega arith)
