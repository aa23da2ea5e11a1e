-- ===== src/Base/Map.antt =====
-- `HashMap<Uuid, V>` as an association list: what `get`, `contains_key`, `insert` and `remove` do.
use Prim.Native.Nat.{ℕ}
use mathlib.Core.Path.{◌≡◌, refl, sym, ap, subst}
use mathlib.Core.Logic.{inl, inr}
use mathlib.Core.Bool.{Bool, true, false}
use mathlib.Core.List.{List, [], ◌∷◌}
use mathlib.Core.Option.{Option, none, some}
use native.Mathlib.Omega.{arith}
use jmux.Base.Lists.{retain}
use jmux.Base.Tests.{if◌then◌else◌, ◌==◌, is_some, Bool-cases}

abbrev pub Map {ℓ} : Type ℓ → Type ℓ
Map V = List (ℕ × V)

module _ {ℓ} {V : Type ℓ} where
  abbrev pub get : Map V → ℕ → Option V
  get [] k = none
  get ((j, v) ∷ m) k = if j == k then some v else get m k

  abbrev pub contains_key : Map V → ℕ → Bool
  contains_key [] k = false
  contains_key ((j, v) ∷ m) k = if j == k then true else contains_key m k

  abbrev pub insert : Map V → ℕ → V → Map V
  insert [] k v = (k, v) ∷ []
  insert ((j, w) ∷ m) k v = if j == k then (k, v) ∷ m else (j, w) ∷ insert m k v

  -- The entries without the key.
  abbrev pub remove : Map V → ℕ → Map V
  remove [] k = []
  remove ((j, w) ∷ m) k = let rest = remove m k in if j == k then rest else (j, w) ∷ rest

  -- `get_mut` and a write through the reference.
  abbrev pub update : Map V → ℕ → (V → V) → Map V
  update [] k f = []
  update ((j, w) ∷ m) k f = if j == k then (j, f w) ∷ m else (j, w) ∷ update m k f

abbrev map_option {ℓ} : {V : Type ℓ} → (V → V) → Option V → Option V
map_option f none = none
map_option f (some v) = some (f v)

module _ {ℓ} {V : Type ℓ} where
  pub contains_key-insert :
      (m : Map V) (k j : ℕ) (v : V)
      → contains_key (insert m k v) j ≡ (if k == j then true else contains_key m j)
  contains_key-insert [] k j v = refl
  contains_key-insert ((i, w) ∷ m) k j v = ground (arith, contains_key-insert m k j v)

  pub contains_key-remove :
      (m : Map V) (k j : ℕ)
      → contains_key (remove m k) j ≡ (if k == j then false else contains_key m j)
  contains_key-remove [] k j = ground arith
  contains_key-remove ((i, w) ∷ m) k j = ground (arith, contains_key-remove m k j)

  pub is_some-get : (m : Map V) (k : ℕ) → is_some (get m k) ≡ contains_key m k
  is_some-get [] k = refl
  is_some-get ((i, w) ∷ m) k = ground (arith, is_some-get m k)

  contains_key-update :
      (m : Map V) (k j : ℕ) (f : V → V) → contains_key (update m k f) j ≡ contains_key m j
  contains_key-update [] k j f = refl
  contains_key-update ((i, w) ∷ m) k j f = ground (arith, contains_key-update m k j f)

  pub nil_of_no_key : (m : Map V) → ((k : ℕ) → contains_key m k ≡ false) → m ≡ []
  nil_of_no_key [] h = refl
  nil_of_no_key ((i, w) ∷ m) h = absurd (ground (arith, h i))

  get-update :
      (m : Map V) (k j : ℕ) (f : V → V)
      → get (update m k f) j ≡ (if k == j then map_option f (get m j) else get m j)
  get-update [] k j f = ground arith
  get-update ((i, w) ∷ m) k j f = ground (arith, get-update m k j f)

  pub get-update_self :
      (m : Map V) (k : ℕ) (f : V → V) {v : V} → get m k ≡ some v → get (update m k f) k ≡ some (f v)
  get-update_self m k f h = ground (arith, get-update m k k f)

  pub get-remove_self : (m : Map V) (k : ℕ) → get (remove m k) k ≡ none
  get-remove_self [] k = refl
  get-remove_self ((i, w) ∷ m) k = ground (arith, get-remove_self m k)

  pub get-update_other :
      (m : Map V) (k j : ℕ) (f : V → V) → (k == j) ≡ false → get (update m k f) j ≡ get m j
  get-update_other m k j f other = ground (arith, get-update m k j f)

  pub get-remove_other : (m : Map V) (k j : ℕ) → (k == j) ≡ false → get (remove m k) j ≡ get m j
  get-remove_other [] k j other = refl
  get-remove_other ((i, w) ∷ m) k j other = ground (arith, get-remove_other m k j other)

  pub get-retain :
      (p : ℕ × V → Bool) (m : Map V) (k : ℕ) {v : V}
      → get m k ≡ some v
      → p (k, v) ≡ true
      → get (retain p m) k ≡ some v
  get-retain p [] k found kept = cc
  get-retain p ((j, w) ∷ m) k {v} found kept = elim (Bool-cases (j == k)) [
    | inl e ↦
        let same : w ≡ v = ground arith in
        let key : j ≡ k = ground arith in
        let here : p (j, w) ≡ true =
          subst (λ i. p (i, w) ≡ true) (sym key) (subst (λ x. p (k, x) ≡ true) (sym same) kept) in
        rw (here, e) (ap some same)
    | inr e ↦ elim (Bool-cases (p (j, w))) [
      | inl q ↦ rw (q, e) (get-retain p m k (ground arith) kept)
      | inr q ↦ rw q (get-retain p m k (ground arith) kept)
    ]
  ]

  -- What holds of all entries.
  abbrev pub All {κ} : (ℕ → V → Type κ) → Map V → Type κ
  All P [] = Unit
  All P ((k, v) ∷ m) = P k v × All P m

  pub All-get {κ} :
      (P : ℕ → V → Type κ) (m : Map V) (k : ℕ) {v : V} → All P m → get m k ≡ some v → P k v
  All-get P [] k a h = cc
  All-get P ((j, w) ∷ m) k {v} a h = elim (Bool-cases (j == k)) [
    | inl e ↦
        let same : w ≡ v = ground arith in
        let key : j ≡ k = ground arith in subst (λ i. P i v) (key) (subst (P j) (same) (a.0))
    | inr e ↦ All-get P m k a.1 (ground arith)
  ]

  pub All-update {κ} :
      (P : ℕ → V → Type κ) (m : Map V) (k : ℕ) (f : V → V) {v : V}
      → get m k ≡ some v
      → P k (f v)
      → All P m
      → All P (update m k f)
  All-update P [] k f h p a = tt
  All-update P ((j, w) ∷ m) k f {v} h p a = elim (Bool-cases (j == k)) [
    | inl e ↦
        let same : v ≡ w = ground arith in
        let key : k ≡ j = ground arith in
        rw e (subst (λ i. P i (f w)) (key) (subst (λ x. P k (f x)) (same) p), a.1)
    | inr e ↦ rw e (a.0, All-update P m k f (ground arith) p a.1)
  ]

  pub All-update_keeping {κ} :
      (P : ℕ → V → Type κ) (m : Map V) (k : ℕ) (f : V → V)
      → ((i : ℕ) (v : V) → P i v → P i (f v))
      → All P m
      → All P (update m k f)
  All-update_keeping P [] k f keeps a = tt
  All-update_keeping P ((j, w) ∷ m) k f keeps a = elim (Bool-cases (j == k)) [
    | inl e ↦ rw e (keeps j w a.0, a.1)
    | inr e ↦ rw e (a.0, All-update_keeping P m k f keeps a.1)
  ]

  pub All-remove {κ} : (P : ℕ → V → Type κ) (m : Map V) (k : ℕ) → All P m → All P (remove m k)
  All-remove P [] k a = tt
  All-remove P ((j, w) ∷ m) k a = elim (Bool-cases (j == k)) [
    | inl e ↦ rw e (All-remove P m k a.1)
    | inr e ↦ rw e (a.0, All-remove P m k a.1)
  ]

  pub All-retain {κ} :
      (P : ℕ → V → Type κ) (p : ℕ × V → Bool) (m : Map V) → All P m → All P (retain p m)
  All-retain P p [] a = tt
  All-retain P p ((j, w) ∷ m) a = elim (Bool-cases (p (j, w))) [
    | inl e ↦ rw e (a.0, All-retain P p m a.1)
    | inr e ↦ rw e (All-retain P p m a.1)
  ]
