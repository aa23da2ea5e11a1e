-- ===== src/Tests/Workspaces.antt =====
-- The theorems on workspaces at a concrete workspace of two panels.
use jmux.Base.{ℕ, ◌==◌, ◌≡◌, refl, true, false, ◌&&◌, not, some, Uuid, is_some}
use jmux.Base.Map.{contains_key}
use jmux.Base.Text.{codes}
use jmux.Layout.{horizontal, vertical, left}
use jmux.Layout.Edit
use jmux.Panel.{terminal}
use jmux.Workspace.{Workspace}
use jmux.Workspace.Panels.{new, split, remove_panel}
use jmux.Workspace.Rearrange.{
  shares_pane, move_panel_to_pane, split_panel_into_pane, drag_target, drag_orientation,
  drag_to_split,
}
use jmux.Workspace.Sound.{IsSound}
use jmux.Workspace.Place.{new-IsSound, split-IsSound}
use jmux.Workspace.Close.{remove_panel-IsSound}
use jmux.Workspace.Move.{move_panel_to_pane_lem}
use jmux.Workspace.Drag.{drag_to_split_lem, split_panel_into_pane_lem}

-- A workspace with one terminal.
abbrev one_panel : Workspace ℕ
unfolding new
one_panel = new 10 1 (codes "/home/me")

one_panel-IsSound : IsSound one_panel
unfolding one_panel new
one_panel-IsSound = new-IsSound 10 1 (codes "/home/me")

-- The same with a second terminal on its right.
abbrev two_panels : Workspace ℕ
unfolding split
two_panels = split 500 one_panel horizontal terminal 2

two_panels-IsSound : IsSound two_panels
unfolding one_panel two_panels split
two_panels-IsSound = split-IsSound 500 one_panel horizontal terminal 2 one_panel-IsSound refl refl

-- The same with the second one zoomed.
abbrev zoomed : Workspace ℕ
zoomed = record two_panels { zoomed_panel_id = some 2 }

remove_panel-IsSound_example : IsSound (remove_panel two_panels 2).0
remove_panel-IsSound_example = remove_panel-IsSound two_panels 2 two_panels-IsSound

move_panel_to_pane_lem_example :
    IsSound (move_panel_to_pane two_panels 2 1).0
    × ((move_panel_to_pane two_panels 2 1).1 ≡ (
        not (2 == 1)
        && contains_key two_panels.panels 2
        && contains_key two_panels.panels 1
        && not (shares_pane two_panels 2 1)))
    × ((move_panel_to_pane two_panels 2 1).1 ≡ false
        → (move_panel_to_pane two_panels 2 1).0 ≡ two_panels)
move_panel_to_pane_lem_example = move_panel_to_pane_lem two_panels 2 1 two_panels-IsSound

split_panel_into_pane_lem_example :
    IsSound (split_panel_into_pane 500 two_panels 2 1 vertical left).0
    × ((split_panel_into_pane 500 two_panels 2 1 vertical left).1
        ≡ (not (2 == 1) && contains_key two_panels.panels 2 && contains_key two_panels.panels 1))
    × ((split_panel_into_pane 500 two_panels 2 1 vertical left).1 ≡ false
        → (split_panel_into_pane 500 two_panels 2 1 vertical left).0 ≡ two_panels)
split_panel_into_pane_lem_example =
    split_panel_into_pane_lem 500 two_panels 2 1 vertical left two_panels-IsSound

drag_to_split_lem_example :
    IsSound (drag_to_split 500 two_panels 2 left).0
    × ((drag_to_split 500 two_panels 2 left).1
        ≡ (contains_key two_panels.panels 2 && is_some (drag_target two_panels 2)))
    × ((drag_to_split 500 two_panels 2 left).1 ≡ false
        → (drag_to_split 500 two_panels 2 left).0 ≡ two_panels)
    × ((t : Uuid)
        → contains_key two_panels.panels 2 ≡ true
        → drag_target two_panels 2 ≡ some t
        → (drag_to_split 500 two_panels 2 left).0.layout
          ≡ (Edit.split_pane_with_panel 500
              (Edit.remove_panel two_panels.layout 2).0
              t
              2
              (drag_orientation left)
              left).0)
drag_to_split_lem_example = drag_to_split_lem 500 two_panels 2 left two_panels-IsSound
