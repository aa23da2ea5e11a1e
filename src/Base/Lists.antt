-- ===== src/Base/Lists.antt =====
-- Lists measured and indexed by native numbers (`Vec` operations of Rust).
use Prim.Native.Nat.{ℕ, zero, suc, ◌+◌, ◌-◌, ◌≤◌, ◌<◌, min}
use mathlib.Core.Path.{◌≡◌, refl, ap}
use mathlib.Core.Bool.{Bool, true, false}
use mathlib.Core.List.{List, [], ◌∷◌, ◌++◌}
use mathlib.Core.Option.{Option, none, some}
use native.Mathlib.Omega.{arith}
use jmux.Base.Tests.{if◌then◌else◌, ltb}

module _ {ℓ} {A : Type ℓ} where
  abbrev pub length : List A → ℕ
  length [] = 0
  length (x ∷ xs) = suc (length xs)

  abbrev pub get_elem? : List A → ℕ → Option A
  get_elem? [] i = none
  get_elem? (x ∷ xs) zero = some x
  get_elem? (x ∷ xs) (suc i) = get_elem? xs i

  abbrev pub take : ℕ → List A → List A
  take zero xs = []
  take (suc n) [] = []
  take (suc n) (x ∷ xs) = x ∷ take n xs

  abbrev pub drop : ℕ → List A → List A
  drop zero xs = xs
  drop (suc n) [] = []
  drop (suc n) (x ∷ xs) = drop n xs

  -- `first()` and `last()`.
  abbrev pub head? : List A → Option A
  head? [] = none
  head? (x ∷ xs) = some x

  abbrev pub get_last? : List A → Option A
  get_last? [] = none
  get_last? (x ∷ []) = some x
  get_last? (x ∷ y ∷ xs) = get_last? (y ∷ xs)

  abbrev pub is_nil : List A → Bool
  is_nil [] = true
  is_nil (x ∷ xs) = false

  -- `remove(i)` and `insert(i, v)`, at an index that the code has checked.
  abbrev pub erase_idx : List A → ℕ → List A
  erase_idx [] i = []
  erase_idx (x ∷ xs) zero = xs
  erase_idx (x ∷ xs) (suc i) = x ∷ erase_idx xs i

  abbrev pub insert_idx : List A → ℕ → A → List A
  insert_idx xs zero v = v ∷ xs
  insert_idx [] (suc i) v = v ∷ []
  insert_idx (x ∷ xs) (suc i) v = x ∷ insert_idx xs i v

  -- `position(|x| p(x))`
  abbrev pub position : (A → Bool) → List A → Option ℕ
  position p [] = none
  position p (x ∷ xs) =
      if p x then some 0 else elim (position p xs) [ none ↦ none | some i ↦ some (suc i) ]

  abbrev pub find : (A → Bool) → List A → Option A
  find p [] = none
  find p (x ∷ xs) = if p x then some x else find p xs

  -- `retain`, and `iter().filter(..)`
  abbrev pub retain : (A → Bool) → List A → List A
  retain p [] = []
  retain p (x ∷ xs) = let rest = retain p xs in if p x then x ∷ rest else rest

  abbrev pub all : (A → Bool) → List A → Bool
  all p [] = true
  all p (x ∷ xs) = if p x then all p xs else false

  abbrev pub any : (A → Bool) → List A → Bool
  any p [] = false
  any p (x ∷ xs) = if p x then true else any p xs

  -- `iter_mut().find(p)` with a write through the reference.
  abbrev pub update_first : (A → Bool) → (A → A) → List A → List A
  update_first p f [] = []
  update_first p f (x ∷ xs) = if p x then f x ∷ xs else x ∷ update_first p f xs

module _ {ℓ} {A : Type ℓ} where
  -- `drain(0..len - limit)` where the list has grown past the limit.
  abbrev pub keep_last : ℕ → List A → List A
  keep_last limit xs = if ltb limit (length xs) then drop (length xs - limit) xs else xs

  -- `push`, and then that.
  abbrev pub push_capped : ℕ → List A → A → List A
  push_capped limit xs x = keep_last limit (xs ++ x ∷ [])

  -- `pop()`: the last element, and the list without it.
  abbrev pub pop : List A → Option (A × List A)
  pop [] = none
  pop (x ∷ xs) = elim (pop xs) [ none ↦ some (x, []) | some (y, rest) ↦ some (y, x ∷ rest) ]

module _ {ℓ} {A : Type ℓ} where
  pub length-append : (xs ys : List A) → length (xs ++ ys) ≡ length xs + length ys
  length-append [] ys = omega arith
  length-append (x ∷ xs) ys = omega (arith, length-append xs ys)

  pub length-drop : (n : ℕ) (xs : List A) → length (drop n xs) ≡ length xs - n
  length-drop zero xs = omega arith
  length-drop (suc n) [] = omega arith
  length-drop (suc n) (x ∷ xs) = omega (arith, length-drop n xs)

  pub length-take : (n : ℕ) (xs : List A) → length (take n xs) ≡ min n (length xs)
  length-take zero xs = omega arith
  length-take (suc n) [] = omega arith
  length-take (suc n) (x ∷ xs) = omega (arith, length-take n xs)

  pub length-erase_idx :
      (xs : List A) (i : ℕ) → i < length xs → suc (length (erase_idx xs i)) ≡ length xs
  length-erase_idx [] i h = elim h [ ]
  length-erase_idx (x ∷ xs) zero h = refl
  length-erase_idx (x ∷ xs) (suc i) h = ap suc (length-erase_idx xs i (omega arith))

  pub length-insert_idx :
      (xs : List A) (i : ℕ) (v : A) → length (insert_idx xs i v) ≡ suc (length xs)
  length-insert_idx xs zero v = refl
  length-insert_idx [] (suc i) v = refl
  length-insert_idx (x ∷ xs) (suc i) v = ap suc (length-insert_idx xs i v)

  pub position-lt : (p : A → Bool) (xs : List A) (i : ℕ) → position p xs ≡ some i → i < length xs
  position-lt p [] i h = ground arith
  position-lt p (x ∷ xs) zero h = omega arith
  position-lt p (x ∷ xs) (suc i) h = ground (arith, position-lt p xs i)

  pub get_elem?-position :
      (p : A → Bool) (xs : List A) (i : ℕ)
      → position p xs ≡ some i
      → (a : A) × (get_elem? xs i ≡ some a) × (p a ≡ true)
  get_elem?-position p [] i h = ground arith
  get_elem?-position p (x ∷ xs) zero h = (x, refl, ground arith)
  get_elem?-position p (x ∷ xs) (suc i) h = get_elem?-position p xs i (ground arith)

  pub length-keep_last : (limit : ℕ) (xs : List A) → length (keep_last limit xs) ≤ limit
  length-keep_last limit xs = ground (arith, length-drop (length xs - limit) xs)

  -- The size of what `pop` was given.
  abbrev pub popped_length : Option (A × List A) → ℕ
  popped_length none = 0
  popped_length (some (y, rest)) = suc (length rest)

  pub length-pop : (xs : List A) → popped_length (pop xs) ≡ length xs
  length-pop [] = refl
  length-pop (x ∷ xs) = grow (pop xs) (length-pop xs)
    where
      grow :
          (o : Option (A × List A))
          → popped_length o ≡ length xs
          → popped_length (elim o as (λ _. Option (A × List A)) [
            | none ↦ some (x, [])
            | some (y, rest) ↦ some (y, x ∷ rest)
          ])
            ≡ suc (length xs)
      grow none e = ap suc e
      grow (some (y, rest)) e = ap suc e
