-- ===== src/Layout/Edit.antt =====
-- The functions of `LayoutNode` that change which panels stand where (jmux/src/model/panel.rs).
-- A method on `&mut self` returns the new tree beside its result.
use jmux.Base.{
  ℕ, ◌+◌, ◌==◌, Bool, true, false, ◌||◌, Option, none, some, List, [], ◌∷◌, ◌++◌, min,
  if◌then◌else◌, Uuid, contains, is_some_eq, length, head?, erase_idx, insert_idx,
}
use jmux.Layout.{
  SplitOrientation, Direction, left, right, up, down, LayoutNode, pane, split, index_of, is_empty,
}

-- A pane's ids with `new` inserted behind `target`, or pushed where `target` is not in the pane.
abbrev pub insert_after : List Uuid → Uuid → Uuid → List Uuid
insert_after ids target new = elim (index_of ids target) [
  | none ↦ ids ++ new ∷ []
  | some pos ↦ insert_idx ids (pos + 1) new
]

-- A pane's ids with `x` moved to `new_index`, which is cut off at the end.
abbrev pub move_to : List Uuid → Uuid → ℕ → List Uuid
move_to ids x new_index = elim (index_of ids x) [
  | none ↦ ids
  | some pos ↦ let rest = erase_idx ids pos in insert_idx rest (min new_index (length rest)) x
]

abbrev pub swap_id : Uuid → Uuid → Uuid → Uuid
swap_id a b id = if id == a then b else (if id == b then a else id)

abbrev pub swap_ids : Uuid → Uuid → List Uuid → List Uuid
swap_ids a b [] = []
swap_ids a b (id ∷ ids) = swap_id a b id ∷ swap_ids a b ids

-- left/up → the new panel is first; right/down → it is second.
abbrev is_new_first : Direction → Bool
is_new_first left = true
is_new_first up = true
is_new_first right = false
is_new_first down = false

module _ {F : Type 0} where
  -- `split`, with the divider position that the source writes as a literal.
  unfoldable pub split_with : F → LayoutNode F → SplitOrientation → Uuid → LayoutNode F
  split_with half layout orientation new_panel_id =
      split orientation half layout (pane (new_panel_id ∷ []) (some new_panel_id))

  -- `find_pane_with_panel` and a write through the `&mut LayoutNode` that it returns: the first
  -- pane that holds the panel is replaced by `write` of it.
  unfoldable pub find_pane_with_panel :
      LayoutNode F → Uuid → (List Uuid → Option Uuid → LayoutNode F) → LayoutNode F × Bool
  find_pane_with_panel (pane ids sel) panel_id write =
      if contains ids panel_id then (write ids sel, true) else (pane ids sel, false)
  find_pane_with_panel (split o d first second) panel_id write =
      let in_first : LayoutNode F × Bool = find_pane_with_panel first panel_id write in
      let in_second : LayoutNode F × Bool = find_pane_with_panel second panel_id write in
      if in_first.1
      then (split o d in_first.0 second, true)
      else (split o d first in_second.0, in_second.1)

  unfoldable pub select_panel : LayoutNode F → Uuid → LayoutNode F × Bool
  select_panel (pane ids sel) panel_id =
      if contains ids panel_id then (pane ids (some panel_id), true) else (pane ids sel, false)
  select_panel (split o d first second) panel_id =
      let in_first : LayoutNode F × Bool = select_panel first panel_id in
      let in_second : LayoutNode F × Bool = select_panel second panel_id in
      if in_first.1
      then (split o d in_first.0 second, true)
      else (split o d in_first.0 in_second.0, in_second.1)

  -- Collapse if either side is now empty.
  unfoldable pub collapse : SplitOrientation → F → LayoutNode F → LayoutNode F → LayoutNode F
  unfolding is_empty
  collapse o d first second =
      if is_empty first then second else (if is_empty second then first else split o d first second)

  unfoldable pub remove_panel : LayoutNode F → Uuid → LayoutNode F × Bool
  unfolding collapse
  remove_panel (pane ids sel) panel_id = elim (index_of ids panel_id) [
    | none ↦ (pane ids sel, false)
    | some pos ↦
        let rest = erase_idx ids pos in
        (pane rest (if is_some_eq sel panel_id then head? rest else sel), true)
  ]
  remove_panel (split o d first second) panel_id =
      let in_first : LayoutNode F × Bool = remove_panel first panel_id in
      let in_second : LayoutNode F × Bool = remove_panel second panel_id in
      if in_first.1
      then (collapse o d in_first.0 second, true)
      else (if in_second.1
          then (collapse o d in_first.0 in_second.0, true)
          else (split o d in_first.0 in_second.0, false))

  -- `swap_panels` and `swap_panels_recursive`.
  unfoldable pub swap_panels : LayoutNode F → Uuid → Uuid → LayoutNode F × Bool
  swap_panels (pane ids sel) a b = (
    pane (swap_ids a b ids) (elim sel [ none ↦ none | some id ↦ some (swap_id a b id) ]),
    contains ids a || contains ids b,
  )
  swap_panels (split o d first second) a b =
      let c1 : LayoutNode F × Bool = swap_panels first a b in
      let c2 : LayoutNode F × Bool = swap_panels second a b in (split o d c1.0 c2.0, c1.1 || c2.1)

  unfoldable pub reorder_panel_in_pane : LayoutNode F → Uuid → ℕ → LayoutNode F × Bool
  unfolding find_pane_with_panel
  reorder_panel_in_pane layout panel_id new_index =
      find_pane_with_panel layout panel_id λ ids sel. pane (move_to ids panel_id new_index) sel

  unfoldable pub add_panel_to_pane : LayoutNode F → Uuid → Uuid → LayoutNode F × Bool
  unfolding find_pane_with_panel
  add_panel_to_pane layout target_panel_id new_panel_id =
      find_pane_with_panel layout target_panel_id
        λ ids sel. pane (insert_after ids target_panel_id new_panel_id) (some new_panel_id)

  unfoldable pub split_pane_with_panel :
      F → LayoutNode F → Uuid → Uuid → SplitOrientation → Direction → LayoutNode F × Bool
  split_pane_with_panel half (pane ids sel) target panel_id orientation direction =
      let new_pane : LayoutNode F = pane (panel_id ∷ []) (some panel_id) in
      if contains ids target
      then (
        if is_new_first direction
            then split orientation half new_pane (pane ids sel)
            else split orientation half (pane ids sel) new_pane,
        true,
      )
      else (pane ids sel, false)
  split_pane_with_panel half (split o d first second) target panel_id orientation direction =
      let in_first : LayoutNode F × Bool =
        split_pane_with_panel half first target panel_id orientation direction in
      let in_second : LayoutNode F × Bool =
        split_pane_with_panel half second target panel_id orientation direction in
      if in_first.1
      then (split o d in_first.0 second, true)
      else (split o d in_first.0 in_second.0, in_second.1)
