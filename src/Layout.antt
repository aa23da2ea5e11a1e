-- ===== src/Layout.antt =====
-- The layout tree of a workspace (`LayoutNode` in jmux/src/model/panel.rs): its type and the
-- functions that only read it. The children hold the functions that change it, and the lemmas.
pub mod Edit
pub mod Divider
pub mod Count
pub mod Moves
pub mod Valid
pub mod Cycle
pub mod Neighbor
pub mod Dividers
pub mod Order
use jmux.Base.{
  ℕ, ◌+◌, ◌-◌, ◌%◌, ◌==◌, Bool, true, false, ◌&&◌, not, Option, none, some, List, [], ◌∷◌, ◌++◌,
  if◌then◌else◌, Uuid, contains, position, length, get_elem?, head?, get_last?, is_nil, or_else,
}

pub data SplitOrientation : Type 0 where
  horizontal vertical : SplitOrientation

pub data Direction : Type 0 where
  left right up down : Direction

-- `F` is the type of the divider positions.
pub data LayoutNode (F : Type 0) : Type 0 where
  pane : (panel_ids : List Uuid) (selected_panel_id : Option Uuid) → LayoutNode F
  split :
      (orientation : SplitOrientation) (divider_position : F) (first second : LayoutNode F)
      → LayoutNode F

-- `iter().position(|&id| id == x)`
abbrev pub index_of : List Uuid → Uuid → Option ℕ
index_of ids x = position (λ id. id == x) ids

-- `ids[(pos + 1) % ids.len()]`, where the panel stands in the list.
unfoldable pub next_in : List Uuid → Uuid → Option Uuid
next_in ids current = elim (index_of ids current) [
  | none ↦ none
  | some pos ↦ get_elem? ids ((pos + 1) % length ids)
]

unfoldable pub prev_in : List Uuid → Uuid → Option Uuid
prev_in ids current = elim (index_of ids current) [
  | none ↦ none
  | some pos ↦ get_elem? ids (if pos == 0 then length ids - 1 else pos - 1)
]

-- The `matches!` of `neighbor_recursive`.
abbrev matches_axis : SplitOrientation → Direction → Bool
matches_axis horizontal left = true
matches_axis horizontal right = true
matches_axis horizontal _ = false
matches_axis vertical up = true
matches_axis vertical down = true
matches_axis vertical _ = false

abbrev wants_second : Direction → Bool
wants_second right = true
wants_second down = true
wants_second _ = false

module _ {F : Type 0} where
  unfoldable pub single_pane : Uuid → LayoutNode F
  single_pane panel_id = pane (panel_id ∷ []) (some panel_id)

  unfoldable pub all_panel_ids : LayoutNode F → List Uuid
  all_panel_ids (pane ids sel) = ids
  all_panel_ids (split o d first second) = all_panel_ids first ++ all_panel_ids second

  unfoldable pub is_empty : LayoutNode F → Bool
  is_empty (pane ids sel) = is_nil ids
  is_empty (split o d first second) = is_empty first && is_empty second

  unfoldable pub find_pane_with_panel_readonly : LayoutNode F → Uuid → Option (List Uuid)
  find_pane_with_panel_readonly (pane ids sel) panel_id =
      if contains ids panel_id then some ids else none
  find_pane_with_panel_readonly (split o d first second) panel_id =
      or_else (find_pane_with_panel_readonly first panel_id)
        (find_pane_with_panel_readonly second panel_id)

  unfoldable pub next_panel_id : LayoutNode F → Uuid → Option Uuid
  unfolding next_in
  next_panel_id layout current = next_in (all_panel_ids layout) current

  unfoldable pub prev_panel_id : LayoutNode F → Uuid → Option Uuid
  unfolding prev_in
  prev_panel_id layout current = prev_in (all_panel_ids layout) current

  unfoldable pub next_panel_in_pane : LayoutNode F → Uuid → Option Uuid
  unfolding next_in
  next_panel_in_pane (pane ids sel) current = next_in ids current
  next_panel_in_pane (split o d first second) current =
      or_else (next_panel_in_pane first current) (next_panel_in_pane second current)

  unfoldable prev_panel_in_pane : LayoutNode F → Uuid → Option Uuid
  unfolding prev_in
  prev_panel_in_pane (pane ids sel) current = prev_in ids current
  prev_panel_in_pane (split o d first second) current =
      or_else (prev_panel_in_pane first current) (prev_panel_in_pane second current)

  unfoldable pub neighbor : LayoutNode F → Uuid → Direction → Option Uuid
  unfolding all_panel_ids
  neighbor (pane ids sel) panel_id direction = none
  neighbor (split o d first second) panel_id direction =
      let in_first = contains (all_panel_ids first) panel_id in
      let in_second = contains (all_panel_ids second) panel_id in
      let from_first = neighbor first panel_id direction in
      let from_second = neighbor second panel_id direction in
      if matches_axis o direction
      then (if in_first && wants_second direction
          then or_else from_first (head? (all_panel_ids second))
          else (if in_second && not (wants_second direction)
              then or_else from_second (get_last? (all_panel_ids first))
              else (if in_first then from_first else from_second)))
      else (if in_first then from_first else (if in_second then from_second else none))
