-- ===== src/Workspace/Rearrange.antt =====
-- The operations of a workspace (jmux/src/model/workspace.rs) that move its panels: into a pane, beside
-- one, by a drag, and with the focus.
use jmux.Base.{
  ◌==◌, Bool, true, false, ◌||◌, not, Option, none, some, if◌then◌else◌, Uuid, contains, is_some_eq,
  find,
}
use jmux.Base.Map.{contains_key}
use jmux.Layout.{
  SplitOrientation, horizontal, vertical, Direction, left, right, up, down, LayoutNode,
  all_panel_ids, find_pane_with_panel_readonly,
}
use jmux.Layout.Edit
use jmux.Workspace.{Workspace}

abbrev pub drag_orientation : Direction → SplitOrientation
drag_orientation left = horizontal
drag_orientation right = horizontal
drag_orientation up = vertical
drag_orientation down = vertical

module _ {F : Type 0} where
  -- A new layout, with the focus moved to `panel_id`.
  abbrev pub refocused : Workspace F → LayoutNode F → Uuid → Workspace F
  refocused ws layout panel_id = record ws {
    layout = layout;
    previous_focused_panel_id = ws.focused_panel_id;
    focused_panel_id = some panel_id;
  }

  -- `find_pane_with_panel_readonly(target)` holds `source`.
  unfoldable pub shares_pane : Workspace F → Uuid → Uuid → Bool
  unfolding find_pane_with_panel_readonly
  shares_pane ws source target = elim (find_pane_with_panel_readonly ws.layout target) [
    | none ↦ false
    | some ids ↦ contains ids source
  ]

  unfoldable pub move_panel_to_pane : Workspace F → Uuid → Uuid → Workspace F × Bool
  unfolding shares_pane Edit.remove_panel Edit.add_panel_to_pane
  move_panel_to_pane ws source target =
      if source == target
      then (ws, false)
      else (if not (contains_key ws.panels source) || not (contains_key ws.panels target)
          then (ws, false)
          else (if shares_pane ws source target
              then (ws, false)
              else (let taken = (Edit.remove_panel ws.layout source).0 in
                  let added = Edit.add_panel_to_pane taken target source in
                  if added.1
                  then (refocused ws added.0 source, true)
                  else (record ws { layout = added.0 }, false))))

  unfoldable pub split_panel_into_pane :
      F → Workspace F → Uuid → Uuid → SplitOrientation → Direction → Workspace F × Bool
  unfolding Edit.remove_panel Edit.split_pane_with_panel
  split_panel_into_pane half ws source target orientation direction =
      if source == target
      then (ws, false)
      else (if not (contains_key ws.panels source) || not (contains_key ws.panels target)
          then (ws, false)
          else (let taken = (Edit.remove_panel ws.layout source).0 in
              let placed =
                Edit.split_pane_with_panel half taken target source orientation direction in
              if placed.1
              then (refocused ws placed.0 source, true)
              else (record ws { layout = placed.0 }, false)))

  -- The pane that a dragged panel splits: the focused one, or the first other panel's.
  unfoldable pub drag_target : Workspace F → Uuid → Option Uuid
  unfolding all_panel_ids
  drag_target ws panel_id =
      if is_some_eq ws.focused_panel_id panel_id
      then find (λ id. not (id == panel_id)) (all_panel_ids ws.layout)
      else ws.focused_panel_id

  unfoldable pub drag_to_split : F → Workspace F → Uuid → Direction → Workspace F × Bool
  unfolding drag_target Edit.remove_panel Edit.split_pane_with_panel Edit.add_panel_to_pane
  drag_to_split half ws panel_id direction =
      if not (contains_key ws.panels panel_id)
      then (ws, false)
      else elim (drag_target ws panel_id) [
        | none ↦ (ws, false)
        | some target ↦
            let taken = (Edit.remove_panel ws.layout panel_id).0 in
            let placed =
              Edit.split_pane_with_panel half taken target panel_id (drag_orientation direction)
                direction in
            let fallback = Edit.add_panel_to_pane placed.0 target panel_id in
            (refocused ws (if placed.1 then placed.0 else fallback.0) panel_id, true)
      ]

  unfoldable pub focus_panel : Workspace F → Uuid → Workspace F × Bool
  unfolding Edit.select_panel
  focus_panel ws panel_id =
      if not (contains_key ws.panels panel_id)
      then (ws, false)
      else (let selected = Edit.select_panel ws.layout panel_id in
          if selected.1
          then (
            record ws {
              layout = selected.0;
              previous_focused_panel_id =
                  if is_some_eq ws.focused_panel_id panel_id
                  then ws.previous_focused_panel_id
                  else ws.focused_panel_id;
              focused_panel_id = some panel_id;
            },
            true,
          )
          else (record ws { layout = selected.0 }, false))
