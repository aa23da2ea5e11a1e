-- ===== src/Layout/Order.antt =====
-- Where a tab stands in its pane after `reorder_panel_in_pane` and `add_panel_to_pane`
-- (jmux/src/model/panel.rs).
use jmux.Base.{
  ℕ, suc, zero, ◌+◌, ◌-◌, ◌==◌, ◌≡◌, ◌≤◌, refl, inl, inr, true, Option, some, List, [], ◌∷◌, arith,
  min, Uuid, count, contains, contains-count, Option-cases, length, insert_idx, erase_idx,
  count-erase_idx, position-lt, length-erase_idx, count-position-none, get_elem?, is_some,
}
use jmux.Layout.{LayoutNode, pane, split, index_of, find_pane_with_panel_readonly}
use jmux.Layout.Edit.{
  insert_after, move_to, find_pane_with_panel, reorder_panel_in_pane, add_panel_to_pane,
}
use jmux.Layout.Moves.{count-move_to, count-insert_after}
use jmux.Layout.Cycle.{find_pane-contains}

-- An element inserted where it does not stand yet is found at its index.
index_of-insert_idx :
    (xs : List Uuid) (i a : Uuid)
    → count a xs ≡ 0
    → i ≤ length xs
    → index_of (insert_idx xs i a) a ≡ some i
index_of-insert_idx xs zero a h le = ground arith
index_of-insert_idx [] (suc i) a h le = elim le [ ]
index_of-insert_idx (x ∷ xs) (suc i) a h le = ground (arith, index_of-insert_idx xs i a)

index_of-move_to :
    (ids : List Uuid) (p : Uuid) (k : ℕ)
    → contains ids p ≡ true
    → count p ids ≤ 1
    → index_of (move_to ids p k) p ≡ some (min k (length ids - 1))
index_of-move_to ids p k h once = elim (Option-cases (index_of ids p)) [
  | inl e ↦ absurd (ground (arith, contains-count ids p, count-position-none p ids))
  | inr (i, e) ↦
      let rest = erase_idx ids i in
      let size : suc (length rest) ≡ length ids =
        length-erase_idx ids i (position-lt (λ id. id == p) ids i e) in
      let gone : count p rest ≡ 0 = ground (arith, count-erase_idx p p ids i e) in
      let same : min k (length rest) ≡ min k (length ids - 1) = omega arith in
      ground (arith, index_of-insert_idx rest (min k (length rest)) p gone (omega arith))
]

get_elem?-insert_idx :
    (xs : List Uuid) (i a : Uuid) → i ≤ length xs → get_elem? (insert_idx xs i a) i ≡ some a
get_elem?-insert_idx xs zero a le = refl
get_elem?-insert_idx [] (suc i) a le = elim le [ ]
get_elem?-insert_idx (x ∷ xs) (suc i) a le = get_elem?-insert_idx xs i a (omega arith)

index_of-insert_idx_after :
    (xs : List Uuid) (i a b : Uuid)
    → index_of xs b ≡ some i
    → index_of (insert_idx xs (suc i) a) b ≡ some i
index_of-insert_idx_after [] i a b h = cc
index_of-insert_idx_after (x ∷ xs) zero a b h = ground arith
index_of-insert_idx_after (x ∷ xs) (suc i) a b h =
    ground (arith, index_of-insert_idx_after xs i a b)

insert_after-index :
    (ids : List Uuid) (target new : Uuid)
    → contains ids target ≡ true
    → (i : ℕ) × (index_of (insert_after ids target new) target ≡ some i)
      × (get_elem? (insert_after ids target new) (suc i) ≡ some new)
insert_after-index ids target new h = elim (Option-cases (index_of ids target)) [
  | inl e ↦ absurd (ground (arith, contains-count ids target, count-position-none target ids))
  | inr (i, e) ↦
      let le : i + 1 ≤ length ids = omega (arith, position-lt (λ id. id == target) ids i e) in
      (
        i,
        ground (arith, index_of-insert_idx_after ids i new target e),
        ground (arith, get_elem?-insert_idx ids (i + 1) new le),
      )
]

module _ {F : Type 0} where
  find_pane-flag :
      (layout : LayoutNode F) (p : Uuid) (write : List Uuid → Option Uuid → LayoutNode F)
      → (find_pane_with_panel layout p write).1 ≡ is_some (find_pane_with_panel_readonly layout p)
  unfolding find_pane_with_panel_readonly find_pane_with_panel
  find_pane-flag (pane qs sel) p write = ground arith
  find_pane-flag (split o d first second) p write =
      ground (arith, find_pane-flag first p write, find_pane-flag second p write)

  -- The pane found after a write of a pane with the same panel is the written one.
  find_pane-written :
      (layout : LayoutNode F) (p : Uuid) (ids : List Uuid) (f : List Uuid → List Uuid)
      (g : List Uuid → Option Uuid → Option Uuid)
      → ((qs : List Uuid) → contains qs p ≡ true → contains (f qs) p ≡ true)
      → find_pane_with_panel_readonly layout p ≡ some ids
      → find_pane_with_panel_readonly
          (find_pane_with_panel layout p (λ qs sel. pane (f qs) (g qs sel))).0
          p
        ≡ some (f ids)
  unfolding find_pane_with_panel_readonly find_pane_with_panel
  find_pane-written (pane qs sel) p ids f g keep h = ground (arith, keep qs)
  find_pane-written (split o d first second) p ids f g keep h =
      let write : List Uuid → Option Uuid → LayoutNode F = λ qs sel. pane (f qs) (g qs sel) in
      ground (
        arith,
        find_pane-flag first p write,
        find_pane-flag second p write,
        find_pane-written first p ids f g keep,
        find_pane-written second p ids f g keep,
      )

  -- If a panel stands once among the tabs of its pane, then after `reorder_panel_in_pane` it is
  -- still found in a pane, at the given index or at the end if that is less, and the pane has the
  -- same tabs, each as often as before.
  reorder_panel_in_pane-index :
      (layout : LayoutNode F) (p : Uuid) (k : ℕ) (ids : List Uuid)
      → find_pane_with_panel_readonly layout p ≡ some ids
      → count p ids ≤ 1
      → (ids' : List Uuid) × (find_pane_with_panel_readonly (reorder_panel_in_pane layout p k).0 p
          ≡ some ids')
        × (index_of ids' p ≡ some (min k (length ids - 1)))
        × ((x : Uuid) → count x ids' ≡ count x ids)
  unfolding reorder_panel_in_pane
  reorder_panel_in_pane-index layout p k ids h once = (
    move_to ids p k,
    find_pane-written layout p ids (λ qs. move_to qs p k) (λ _ sel. sel)
        (λ qs c.
          ground
            (arith, contains-count qs p, contains-count (move_to qs p k) p, count-move_to qs p k p))
        h,
    index_of-move_to ids p k (find_pane-contains layout p ids h) once,
    λ x. count-move_to ids p k x,
  )

  -- If a pane has the target, then after `add_panel_to_pane` the new panel stands directly behind
  -- the target in the pane that the target is found in.
  add_panel_to_pane-index :
      (layout : LayoutNode F) (target new : Uuid) (ids : List Uuid)
      → find_pane_with_panel_readonly layout target ≡ some ids
      → (ids' : List Uuid) × (i : ℕ) × (find_pane_with_panel_readonly
            (add_panel_to_pane layout target new).0
            target
          ≡ some ids')
        × (index_of ids' target ≡ some i)
        × (get_elem? ids' (suc i) ≡ some new)
  unfolding add_panel_to_pane
  add_panel_to_pane-index layout target new ids h =
      let (i, at_target, at_new) =
        insert_after-index ids target new (find_pane-contains layout target ids h) in
      (
        insert_after ids target new,
        i,
        find_pane-written layout target ids (λ qs. insert_after qs target new) (λ _ _. some new)
            (λ qs c. ground (
              arith,
              contains-count qs target,
              contains-count (insert_after qs target new) target,
              count-insert_after qs target new target,
            ))
            h,
        at_target,
        at_new,
      )
