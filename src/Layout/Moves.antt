-- ===== src/Layout/Moves.antt =====
-- The operations that add, move and swap panels: which panels the layout tree holds afterwards
-- (jmux/src/model/panel.rs).
use jmux.Base.{
  ℕ, ◌+◌, ◌==◌, ◌≡◌, refl, inl, inr, true, Option, none, some, List, [], ◌∷◌, arith, if◌then◌else◌,
  ltb, Uuid, one_if, count, count-append, contains-count, length, count-erase_idx, count-insert_idx,
  Bool-cases, Option-cases, erase_idx, min,
}
use jmux.Layout.{SplitOrientation, Direction, LayoutNode, pane, split, index_of, all_panel_ids}
use jmux.Layout.Count.{
  occurs, occurs-split, find_pane_with_panel-found, find_pane_with_panel-absent,
  occurs-find_pane_with_panel,
}
use jmux.Layout.Edit.{
  insert_after, move_to, swap_id, swap_ids, find_pane_with_panel, select_panel, swap_panels,
  reorder_panel_in_pane, add_panel_to_pane, split_pane_with_panel,
}

pub count-insert_after :
    (ids : List Uuid) (target new x : Uuid)
    → count x (insert_after ids target new) ≡ count x ids + one_if (new == x)
count-insert_after ids target new x = elim (Option-cases (index_of ids target)) [
  | inl e ↦ ground (arith, count-append x ids (new ∷ []))
  | inr (i, e) ↦ ground (arith, count-insert_idx x ids (i + 1) new)
]

pub count-move_to :
    (ids : List Uuid) (p : Uuid) (new_index : ℕ) (x : Uuid)
    → count x (move_to ids p new_index) ≡ count x ids
count-move_to ids p new_index x = elim (Option-cases (index_of ids p)) [
  | inl e ↦ ground arith
  | inr (i, e) ↦ ground (
    arith,
    count-erase_idx x p ids i,
    count-insert_idx x (erase_idx ids i) (min new_index (length (erase_idx ids i))) p,
  )
]

count-swap_ids :
    (a b : Uuid) (ids : List Uuid) (x : Uuid)
    → count x (swap_ids a b ids) ≡ count (swap_id a b x) ids
count-swap_ids a b [] x = refl
count-swap_ids a b (id ∷ ids) x = ground (arith, count-swap_ids a b ids x)

module _ {F : Type 0} where
  -- `add_panel_to_pane` succeeds exactly if the target is in the layout, and then adds the new
  -- panel once and changes no other.
  pub add_panel_to_pane-found :
      (layout : LayoutNode F) (target new : Uuid)
      → (add_panel_to_pane layout target new).1 ≡ ltb 0 (occurs layout target)
  unfolding add_panel_to_pane
  add_panel_to_pane-found layout target new = find_pane_with_panel-found layout target _

  pub occurs-add_panel_to_pane :
      (layout : LayoutNode F) (target new x : Uuid)
      → (add_panel_to_pane layout target new).1 ≡ true
      → occurs (add_panel_to_pane layout target new).0 x ≡ occurs layout x + one_if (new == x)
  unfolding add_panel_to_pane all_panel_ids
  occurs-add_panel_to_pane layout target new x h =
      occurs-find_pane_with_panel layout target x _ (one_if (new == x))
        (λ ids sel _. count-insert_after ids target new x) h

  -- Reordering a tab keeps the panels of the layout.
  occurs-reorder_panel_in_pane :
      (layout : LayoutNode F) (p : Uuid) (new_index : ℕ) (x : Uuid)
      → occurs (reorder_panel_in_pane layout p new_index).0 x ≡ occurs layout x
  unfolding reorder_panel_in_pane all_panel_ids
  occurs-reorder_panel_in_pane layout p new_index x =
      let write : List Uuid → Option Uuid → LayoutNode F =
        λ ids sel. pane (move_to ids p new_index) sel in
      elim (Bool-cases (find_pane_with_panel layout p write).1) [
        | inl found ↦ omega (
          arith,
          occurs-find_pane_with_panel layout p x write 0
              (λ ids sel _. omega (arith, count-move_to ids p new_index x)) found,
        )
        | inr absent ↦ rw (find_pane_with_panel-absent layout p write absent)
      ]

  pub occurs-split_pane_with_panel-found :
      (half : F) (layout : LayoutNode F) (target p : Uuid) (o : SplitOrientation) (d : Direction)
      → (split_pane_with_panel half layout target p o d).1 ≡ ltb 0 (occurs layout target)
  unfolding split_pane_with_panel all_panel_ids
  occurs-split_pane_with_panel-found half (pane ids sel) target p o d =
      ground (arith, contains-count ids target)
  occurs-split_pane_with_panel-found half (split q e first second) target p o d = ground (
    arith,
    occurs-split q e first second target,
    occurs-split_pane_with_panel-found half first target p o d,
    occurs-split_pane_with_panel-found half second target p o d,
  )

  -- `split_pane_with_panel` adds the panel once if the target is in the tree, adds nothing if it is
  -- not, and changes no other panel's number of occurrences.
  pub occurs-split_pane_with_panel :
      (half : F) (layout : LayoutNode F) (target p : Uuid) (o : SplitOrientation) (d : Direction)
      (x : Uuid)
      → occurs (split_pane_with_panel half layout target p o d).0 x
        ≡ occurs layout x + (if ltb 0 (occurs layout target) then one_if (p == x) else 0)
  unfolding split_pane_with_panel all_panel_ids
  occurs-split_pane_with_panel half (pane ids sel) target p o d x =
      ground (arith, contains-count ids target, count-append x ids (p ∷ []))
  occurs-split_pane_with_panel half (split q e first second) target p o d x =
      let s = split_pane_with_panel half first target p o d in
      let t = split_pane_with_panel half second target p o d in
      ground (
        arith,
        occurs-split q e first second x,
        occurs-split q e first second target,
        occurs-split q e s.0 second x,
        occurs-split q e s.0 t.0 x,
        occurs-split_pane_with_panel-found half first target p o d,
        occurs-split_pane_with_panel-found half second target p o d,
        occurs-split_pane_with_panel half first target p o d x,
        occurs-split_pane_with_panel half second target p o d x,
      )

  pub occurs-select_panel :
      (layout : LayoutNode F) (p x : Uuid) → occurs (select_panel layout p).0 x ≡ occurs layout x
  unfolding select_panel all_panel_ids
  occurs-select_panel (pane ids sel) p x = ground arith
  occurs-select_panel (split q e first second) p x =
      let s = select_panel first p in
      let t = select_panel second p in
      ground (
        arith,
        occurs-split q e first second x,
        occurs-split q e s.0 second x,
        occurs-split q e s.0 t.0 x,
        occurs-select_panel first p x,
        occurs-select_panel second p x,
      )

  pub select_panel-found :
      (layout : LayoutNode F) (p : Uuid) → (select_panel layout p).1 ≡ ltb 0 (occurs layout p)
  unfolding select_panel all_panel_ids
  select_panel-found (pane ids sel) p = ground (arith, contains-count ids p)
  select_panel-found (split q e first second) p = ground (
    arith,
    occurs-split q e first second p,
    select_panel-found first p,
    select_panel-found second p,
  )

  -- After `swap_panels` of `a` and `b`, `b` occurs as often as `a` did and `a` as often as `b` did,
  -- and every other panel as before.
  occurs-swap_panels :
      (layout : LayoutNode F) (a b x : Uuid)
      → occurs (swap_panels layout a b).0 x ≡ occurs layout (swap_id a b x)
  unfolding swap_panels all_panel_ids
  occurs-swap_panels (pane ids sel) a b x = count-swap_ids a b ids x
  occurs-swap_panels (split q e first second) a b x = omega (
    arith,
    occurs-split q e (swap_panels first a b).0 (swap_panels second a b).0 x,
    occurs-split q e first second (swap_id a b x),
    occurs-swap_panels first a b x,
    occurs-swap_panels second a b x,
  )

swap_id_twice : (a b x : Uuid) → swap_id a b (swap_id a b x) ≡ x
swap_id_twice a b x = ground arith

swap_ids_twice : (a b : Uuid) (ids : List Uuid) → swap_ids a b (swap_ids a b ids) ≡ ids
swap_ids_twice a b [] = refl
swap_ids_twice a b (id ∷ ids) = rw (swap_id_twice a b id, swap_ids_twice a b ids)

module _ {F : Type 0} where
  -- Swapping the same two panels a second time restores the tree.
  swap_panels_twice :
      (layout : LayoutNode F) (a b : Uuid) → (swap_panels (swap_panels layout a b).0 a b).0 ≡ layout
  unfolding swap_panels
  swap_panels_twice (pane ids none) a b = rw (swap_ids_twice a b ids)
  swap_panels_twice (pane ids (some s)) a b = rw (swap_ids_twice a b ids, swap_id_twice a b s)
  swap_panels_twice (split o d first second) a b =
      rw (swap_panels_twice first a b, swap_panels_twice second a b)
