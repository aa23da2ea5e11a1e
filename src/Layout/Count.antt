-- ===== src/Layout/Count.antt =====
-- What each change of a layout tree does to the panels in it: how often an identifier stands in
-- `all_panel_ids` afterwards.
use jmux.Base.{
  ℕ, ◌+◌, ◌-◌, ◌==◌, ◌≡◌, refl, inl, inr, true, false, Option, List, [], ◌∷◌, arith, ltb, Uuid,
  one_if, count, contains, count-append, contains-count, count-erase_idx, count-position-none,
  Bool-cases, Option-cases,
}
use jmux.Layout.{SplitOrientation, LayoutNode, pane, split, index_of, all_panel_ids, is_empty}
use jmux.Layout.Edit.{find_pane_with_panel, collapse, remove_panel}

module _ {F : Type 0} where
  -- How often a panel stands in the tree.
  abbrev pub occurs : LayoutNode F → Uuid → ℕ
  occurs layout x = count x (all_panel_ids layout)

  pub occurs-split :
      (o : SplitOrientation) (d : F) (first second : LayoutNode F) (x : Uuid)
      → occurs (split o d first second) x ≡ occurs first x + occurs second x
  unfolding all_panel_ids
  occurs-split o d first second x = count-append x (all_panel_ids first) (all_panel_ids second)

  -- A tree is empty exactly if it holds no panel.
  is_empty→occurs :
      (layout : LayoutNode F) (x : Uuid) → is_empty layout ≡ true → occurs layout x ≡ 0
  unfolding is_empty all_panel_ids
  is_empty→occurs (pane [] sel) x h = refl
  is_empty→occurs (pane (id ∷ ids) sel) x h = cc
  is_empty→occurs (split o d first second) x h = ground (
    arith,
    count-append x (all_panel_ids first) (all_panel_ids second),
    is_empty→occurs first x,
    is_empty→occurs second x,
  )

  occurs-collapse :
      (o : SplitOrientation) (d : F) (first second : LayoutNode F) (x : Uuid)
      → occurs (collapse o d first second) x ≡ occurs first x + occurs second x
  unfolding collapse
  occurs-collapse o d first second x =
      ground
        (arith, occurs-split o d first second x, is_empty→occurs first x, is_empty→occurs second x)

  pub remove_panel-false-occurs :
      (layout : LayoutNode F) (p : Uuid)
      → (remove_panel layout p).1 ≡ false
      → ((remove_panel layout p).0 ≡ layout) × (occurs layout p ≡ 0)
  unfolding remove_panel all_panel_ids
  remove_panel-false-occurs (pane ids sel) p h = ground (arith, count-position-none p ids)
  remove_panel-false-occurs (split o d first second) p h = ground (
    arith,
    occurs-split o d first second p,
    remove_panel-false-occurs first p,
    remove_panel-false-occurs second p,
  )

  remove_panel-true-occurs :
      (layout : LayoutNode F) (p x : Uuid)
      → (remove_panel layout p).1 ≡ true
      → occurs (remove_panel layout p).0 x + one_if (p == x) ≡ occurs layout x
  unfolding remove_panel all_panel_ids
  remove_panel-true-occurs (pane ids sel) p x h = elim (Option-cases (index_of ids p)) [
    | inl e ↦ ground arith
    | inr (i, e) ↦ ground (arith, count-erase_idx x p ids i)
  ]
  remove_panel-true-occurs (split o d first second) p x h =
      elim (Bool-cases (remove_panel first p).1) [
        | inl yes_first ↦ ground (
          arith,
          occurs-split o d first second x,
          remove_panel-true-occurs first p x,
          occurs-collapse o d (remove_panel first p).0 second x,
        )
        | inr no_first ↦ ground (
          arith,
          occurs-split o d first second x,
          remove_panel-true-occurs second p x,
          remove_panel-false-occurs first p,
          occurs-collapse o d (remove_panel first p).0 (remove_panel second p).0 x,
        )
      ]

  -- `remove_panel` reports whether the panel was there, and takes out one occurrence of it.
  remove_panel-found :
      (layout : LayoutNode F) (p : Uuid) → (remove_panel layout p).1 ≡ ltb 0 (occurs layout p)
  remove_panel-found layout p = elim (Bool-cases (remove_panel layout p).1) [
    | inl found ↦ ground (arith, remove_panel-true-occurs layout p p found)
    | inr absent ↦ ground (arith, remove_panel-false-occurs layout p absent)
  ]

  pub occurs-remove_panel :
      (layout : LayoutNode F) (p x : Uuid)
      → occurs (remove_panel layout p).0 x ≡ occurs layout x - one_if (p == x)
  occurs-remove_panel layout p x = elim (Bool-cases (remove_panel layout p).1) [
    | inl found ↦ ground (arith, remove_panel-true-occurs layout p x found)
    | inr absent ↦ ground (arith, remove_panel-false-occurs layout p absent)
  ]

  -- `remove_panel` on a layout tree returns true exactly if the panel is in the tree; it takes one
  -- occurrence of that panel from the tree and none of another, and leaves the tree as it is where
  -- it returns false.
  pub remove_panel_lem :
      (layout : LayoutNode F) (p : Uuid)
      → ((remove_panel layout p).1 ≡ ltb 0 (occurs layout p))
        × ((x : Uuid) → occurs (remove_panel layout p).0 x ≡ occurs layout x - one_if (p == x))
        × ((remove_panel layout p).1 ≡ false → (remove_panel layout p).0 ≡ layout)
  remove_panel_lem layout p = (
    remove_panel-found layout p,
    occurs-remove_panel layout p,
    λ h. (remove_panel-false-occurs layout p h).0,
  )

  -- A pane that `write` puts in place of the one that holds `p` changes the tree's panels as it
  -- changes the pane's.
  pub find_pane_with_panel-found :
      (layout : LayoutNode F) (p : Uuid) (write : List Uuid → Option Uuid → LayoutNode F)
      → (find_pane_with_panel layout p write).1 ≡ ltb 0 (occurs layout p)
  unfolding find_pane_with_panel all_panel_ids
  find_pane_with_panel-found (pane ids sel) p write = ground (arith, contains-count ids p)
  find_pane_with_panel-found (split o d first second) p write = ground (
    arith,
    occurs-split o d first second p,
    find_pane_with_panel-found first p write,
    find_pane_with_panel-found second p write,
  )

  pub occurs-find_pane_with_panel :
      (layout : LayoutNode F) (p x : Uuid) (write : List Uuid → Option Uuid → LayoutNode F)
      (more : ℕ)
      → ((ids : List Uuid) (sel : Option Uuid)
          → contains ids p ≡ true
          → occurs (write ids sel) x ≡ count x ids + more)
      → (find_pane_with_panel layout p write).1 ≡ true
      → occurs (find_pane_with_panel layout p write).0 x ≡ occurs layout x + more
  unfolding find_pane_with_panel all_panel_ids
  occurs-find_pane_with_panel (pane ids sel) p x write more w h = ground (arith, w ids sel)
  occurs-find_pane_with_panel (split o d first second) p x write more w h =
      elim (Bool-cases (find_pane_with_panel first p write).1) [
        | inl here ↦ ground (
          arith,
          occurs-split o d first second x,
          occurs-split o d (find_pane_with_panel first p write).0 second x,
          occurs-find_pane_with_panel first p x write more w here,
        )
        | inr there ↦ ground (
          arith,
          occurs-split o d first second x,
          occurs-split o d first (find_pane_with_panel second p write).0 x,
          occurs-find_pane_with_panel second p x write more w,
        )
      ]

  -- Where no pane holds the panel, nothing changes.
  pub find_pane_with_panel-absent :
      (layout : LayoutNode F) (p : Uuid) (write : List Uuid → Option Uuid → LayoutNode F)
      → (find_pane_with_panel layout p write).1 ≡ false
      → (find_pane_with_panel layout p write).0 ≡ layout
  unfolding find_pane_with_panel
  find_pane_with_panel-absent (pane ids sel) p write h = ground arith
  find_pane_with_panel-absent (split o d first second) p write h =
      ground (
        arith,
        find_pane_with_panel-absent first p write,
        find_pane_with_panel-absent second p write,
      )
