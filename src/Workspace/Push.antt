-- ===== src/Workspace/Push.antt =====
-- Writing an entry or pushing it into a list with a limit (jmux/src/model/workspace.rs).
use jmux.Base.{
  ℕ, zero, suc, ◌≡◌, ◌≢◌, leb, ◌≤◌, ◌<◌, refl, inl, inr, arith, Bool, true, false, Option, none,
  some, List, [], ◌∷◌, ◌++◌, length, get_elem?, any, find, update_first, erase_idx, retain,
  Bool-cases, Option-cases, length-append, length-erase_idx,
}
use jmux.Workspace.Entries.{min_index, make_room, write_or_push}

module _ {ℓ} {A : Type ℓ} where
  min_index-lt :
      (less : A → A → Bool) (xs : List A) (i : ℕ) → min_index less xs ≡ some i → i < length xs
  unfolding min_index
  min_index-lt less [] i h = ground arith
  min_index-lt less (x ∷ xs) i h = elim (Option-cases (min_index less xs)) [
    | inl e ↦ ground arith
    | inr (j, e) ↦ elim (Option-cases (get_elem? xs j)) [
      | inl g ↦ ground arith
      | inr (y, g) ↦ ground (arith, min_index-lt less xs j e)
    ]
  ]

  min_index-cons : (less : A → A → Bool) (x : A) (xs : List A) → min_index less (x ∷ xs) ≢ none
  unfolding min_index
  min_index-cons less x xs e = elim (Option-cases (min_index less xs)) [
    | inl f ↦ ground arith
    | inr (j, f) ↦ elim (Option-cases (get_elem? xs j)) [
      | inl g ↦ ground arith
      | inr (y, g) ↦ ground arith
    ]
  ]

  min_index-some :
      (less : A → A → Bool) (x : A) (xs : List A) → (i : ℕ) × (min_index less (x ∷ xs) ≡ some i)
  min_index-some less x xs = elim (Option-cases (min_index less (x ∷ xs))) [
    | inl e ↦ absurd (min_index-cons less x xs e)
    | inr found ↦ found
  ]

  -- There is room for one more.
  make_room-lt :
      (limit : ℕ) (less : A → A → Bool) (xs : List A)
      → 0 < limit
      → length xs ≤ limit
      → length (make_room limit less xs) < limit
  unfolding make_room min_index
  make_room-lt limit less [] pos h = ground arith
  make_room-lt limit less (x ∷ xs) pos h =
      let (i, e) = min_index-some less x xs in
      elim (Bool-cases (leb limit (length (x ∷ xs)))) [
        | inl full ↦
            rw (make_room, full)
              (rw e
                (omega (arith, h, length-erase_idx (x ∷ xs) i (min_index-lt less (x ∷ xs) i e))))
        | inr free ↦ rw (make_room, free) (ground arith)
      ]

  length-update_first :
      (p : A → Bool) (f : A → A) (xs : List A) → length (update_first p f xs) ≡ length xs
  length-update_first p f [] = refl
  length-update_first p f (x ∷ xs) = ground (arith, length-update_first p f xs)

  pub length-write_or_push :
      (limit : ℕ) (less : A → A → Bool) (has : A → Bool) (write : A → A) (new : A) (xs : List A)
      → 0 < limit
      → length xs ≤ limit
      → length (write_or_push limit less has write new xs) ≤ limit
  unfolding write_or_push
  length-write_or_push limit less has write new xs pos h = ground (
    arith,
    length-update_first has write xs,
    make_room-lt limit less xs pos h,
    length-append (make_room limit less xs) (new ∷ []),
  )

  any-erase_idx :
      (p : A → Bool) (xs : List A) (i : ℕ) → any p xs ≡ false → any p (erase_idx xs i) ≡ false
  any-erase_idx p [] i h = refl
  any-erase_idx p (x ∷ xs) zero h = ground arith
  any-erase_idx p (x ∷ xs) (suc i) h = ground (arith, any-erase_idx p xs i)

  any-make_room :
      (limit : ℕ) (less : A → A → Bool) (p : A → Bool) (xs : List A)
      → any p xs ≡ false
      → any p (make_room limit less xs) ≡ false
  unfolding make_room
  any-make_room limit less p xs h = elim (Bool-cases (leb limit (length xs))) [
    | inl full ↦ elim (Option-cases (min_index less xs)) [
      | inl e ↦ rw (full, e) h
      | inr (i, e) ↦ rw (full, e) (any-erase_idx p xs i h)
    ]
    | inr free ↦ rw free h
  ]

  find-new :
      (p : A → Bool) (xs : List A) (new : A)
      → any p xs ≡ false
      → p new ≡ true
      → find p (xs ++ new ∷ []) ≡ some new
  find-new p [] new h k = ground arith
  find-new p (x ∷ xs) new h k = ground (arith, find-new p xs new)

  find-any : (p : A → Bool) (xs : List A) → any p xs ≡ false → find p xs ≡ none
  find-any p [] h = refl
  find-any p (x ∷ xs) h = ground (arith, find-any p xs)

  -- The element that a write leaves.
  abbrev written : (A → A) → A → Option A → A
  written write new none = new
  written write new (some old) = write old

  find-update_first :
      (p : A → Bool) (write : A → A) (new : A) (xs : List A)
      → ((x : A) → p (write x) ≡ p x)
      → any p xs ≡ true
      → find p (update_first p write xs) ≡ some (written write new (find p xs))
  find-update_first p write new [] keep h = cc
  find-update_first p write new (x ∷ xs) keep h =
      ground (arith, keep x, find-update_first p write new xs keep)

  find-write_or_push :
      (limit : ℕ) (less : A → A → Bool) (has : A → Bool) (write : A → A) (new : A) (xs : List A)
      → ((x : A) → has (write x) ≡ has x)
      → has new ≡ true
      → find has (write_or_push limit less has write new xs)
        ≡ some (written write new (find has xs))
  unfolding write_or_push
  find-write_or_push limit less has write new xs keep is_new = elim (Bool-cases (any has xs)) [
    | inl there ↦ rw (write_or_push, there) (find-update_first has write new xs keep there)
    | inr absent ↦
        rw (write_or_push, absent)
          (rw (find-any has xs absent) (
            find-new has (make_room limit less xs) new (any-make_room limit less has xs absent)
              is_new))
  ]

  pub length-retain : (p : A → Bool) (xs : List A) → length (retain p xs) ≤ length xs
  length-retain p [] = omega arith
  length-retain p (x ∷ xs) = ground (arith, length-retain p xs)

module _ {ℓ ℓ'} {A : Type ℓ} (P : A → Type ℓ') where
  -- What the written and the new element have in common holds of the one that is found after a call.
  pub write_or_push-found :
      (limit : ℕ) (less : A → A → Bool) (has : A → Bool) (write : A → A) (new : A) (xs : List A)
      → ((x : A) → has (write x) ≡ has x)
      → has new ≡ true
      → ((x : A) → P (write x))
      → P new
      → (entry : A) × (find has (write_or_push limit less has write new xs) ≡ some entry) × P entry
  write_or_push-found limit less has write new xs keep is_new on_write on_new = (
    written write new (find has xs),
    find-write_or_push limit less has write new xs keep is_new,
    either (find has xs),
  )
    where
      either : (o : Option A) → P (written write new o)
      either none = on_new
      either (some old) = on_write old
