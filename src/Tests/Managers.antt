-- ===== src/Tests/Managers.antt =====
-- The theorems on the tab manager at a concrete list of three workspaces.
use jmux.Base.{
  ◌==◌, ◌||◌, is_some_eq, ℕ, false, none, ◌&&◌, List, ◌+◌, ◌≡◌, refl, true, not, some, [], ◌∷◌,
  ◌++◌, arith, length, get_elem?, erase_idx, position, is_some, retain,
}
use jmux.Base.Text.{codes}
use jmux.Workspace.{Workspace}
use jmux.Workspace.Panels
use jmux.Tabs.Assign.{assign_to_group_lem}
use jmux.Tabs.Groups.{group_exists, assign_to_group, move_group_before}
use jmux.Tabs.Cut.{Cut}
use jmux.Tabs.Blocks.{move_group_before_lem}
use jmux.Tabs.{TabManager, has_id, selected, selected_id}
use jmux.Tabs.Select.{focus_back}
use jmux.Tabs.Change.{new, add_workspace, remove, move_workspace, reopen_last_closed}
use jmux.Tabs.Close.{close_others}
use jmux.Tabs.Bulk.{Chosen, close_others_lem}
use jmux.Tabs.Sound.{IsSound}
use jmux.Tabs.Follow.{move_workspace-selected}
use jmux.Tabs.History.{WentBack, focus_back-WentBack}
use jmux.Tabs.Reopen.{reopen_last_closed-remove}
use jmux.Tabs.Reach.{Reach, here, next, add_step, move_step, remove_step, Reach-IsSound}

abbrev workspace_of : ℕ → ℕ → Workspace ℕ
unfolding Panels.new
workspace_of id panel_id = Panels.new id panel_id (codes "/home/me")

-- Workspaces 10, 20 and 30, the last selected.
abbrev three : TabManager ℕ
unfolding new add_workspace
three =
    add_workspace (add_workspace (new (workspace_of 10 1)) (workspace_of 20 2)) (workspace_of 30 3)

three-Reach : Reach (new (workspace_of 10 1)) three
unfolding new add_workspace
three-Reach =
    next (next here (add_step (new (workspace_of 10 1)) (workspace_of 20 2)))
      (add_step (add_workspace (new (workspace_of 10 1)) (workspace_of 20 2)) (workspace_of 30 3))

three-IsSound : IsSound three
three-IsSound = Reach-IsSound (workspace_of 10 1) three-Reach

-- The same after the focus went from 20 to 30, and is recorded there.
abbrev visited : TabManager ℕ
visited = record three { focus_history = 20 ∷ 40 ∷ 30 ∷ []; focus_pos = 2 }

Reach-IsSound_example : IsSound (remove (move_workspace three 2 0).0 1 77).0
Reach-IsSound_example =
    Reach-IsSound (workspace_of 10 1) (
      next (next three-Reach (move_step three 2 0)) (remove_step (move_workspace three 2 0).0 1 77))

move_workspace-selected_example :
    ((move_workspace three 2 0).1 ≡ true)
    × (get_elem? (move_workspace three 2 0).0.workspaces 0 ≡ get_elem? three.workspaces 2)
    × (selected (move_workspace three 2 0).0 ≡ selected three)
unfolding three
move_workspace-selected_example =
    move_workspace-selected three 2 0 three-IsSound (omega arith) (omega arith)

focus_back-WentBack_example : WentBack visited 2 (focus_back visited)
focus_back-WentBack_example = focus_back-WentBack visited

reopen_last_closed-remove_example :
    ((reopen_last_closed (remove three 1 77).0).1 ≡ some 20)
    × ((reopen_last_closed (remove three 1 77).0).0.workspaces
        ≡ erase_idx three.workspaces 1 ++ workspace_of 20 2 ∷ [])
    × (selected (reopen_last_closed (remove three 1 77).0).0 ≡ some (workspace_of 20 2))
unfolding three workspace_of
reopen_last_closed-remove_example =
    reopen_last_closed-remove three 1 77 (workspace_of 20 2) refl refl refl

-- The same with the first pinned.
abbrev pinned : TabManager ℕ
unfolding three workspace_of
pinned = record three {
  workspaces =
      record (workspace_of 10 1) { is_pinned = true } ∷ workspace_of 20 2 ∷ workspace_of 30 3 ∷ [];
}

close_others_lem_example :
    ((close_others pinned 20).0.workspaces
      ≡ retain (λ (ws : Workspace ℕ). ws.id == 20 || ws.is_pinned) pinned.workspaces)
    × Chosen 20 (close_others pinned 20).0.workspaces (close_others pinned 20).0.selected_index
    × ((close_others pinned 20).1 + length (close_others pinned 20).0.workspaces
        ≡ length pinned.workspaces)
close_others_lem_example = close_others_lem pinned 20

-- Workspaces 10 and 30 in the group 7.
abbrev grouped : TabManager ℕ
unfolding three workspace_of
grouped = record three {
  workspaces =
      record (workspace_of 10 1) { group_id = some 7 }
      ∷ workspace_of 20 2
      ∷ record (workspace_of 30 3) { group_id = some 7 }
      ∷ [];
  groups =
      record { id = 7; name = codes "work"; color = none; collapsed = false; window_id = none }
      ∷ [];
}

grouped-IsSound : IsSound grouped
unfolding grouped three
grouped-IsSound = omega arith

move_group_before_lem_example :
    ((move_group_before grouped 7 (some 20)).1 ≡ true)
    × ((before : List (Workspace ℕ)) × (after : List (Workspace ℕ)) × (retain
            (λ (ws : Workspace ℕ). not (is_some_eq ws.group_id 7))
            grouped.workspaces
          ≡ before ++ after)
        × Cut before after (some 20)
        × ((move_group_before grouped 7 (some 20)).0.workspaces
            ≡ before
              ++ (retain (λ (ws : Workspace ℕ). is_some_eq ws.group_id 7) grouped.workspaces
                  ++ after)))
    × (selected_id (move_group_before grouped 7 (some 20)).0 ≡ selected_id grouped)
unfolding grouped
move_group_before_lem_example = move_group_before_lem grouped 7 (some 20) grouped-IsSound refl refl

assign_to_group_lem_example :
    ((assign_to_group grouped 20 (some 7)).1
      ≡ (group_exists grouped (some 7) && is_some (position (has_id 20) grouped.workspaces)))
    × (selected_id (assign_to_group grouped 20 (some 7)).0 ≡ selected_id grouped)
    × ((assign_to_group grouped 20 (some 7)).1 ≡ false
        → (assign_to_group grouped 20 (some 7)).0 ≡ grouped)
assign_to_group_lem_example = assign_to_group_lem grouped 20 (some 7) grouped-IsSound
