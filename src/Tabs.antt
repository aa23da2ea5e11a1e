-- ===== src/Tabs.antt =====
-- The tab manager (jmux/src/model/tab_manager.rs) and the sidebar groups
-- (jmux/src/model/workspace_group.rs): the state, and the functions that only read it.
pub mod Select
pub mod Change
pub mod Close
pub mod Groups
pub mod Bulk
pub mod Sound
pub mod Visits
pub mod Kept
pub mod Inserted
pub mod Written
pub mod Follow
pub mod History
pub mod Reopen
pub mod Reach
pub mod Blocks
pub mod Cut
pub mod Assign
use jmux.Base.{
  ℕ, ◌==◌, Bool, Option, none, some, List, [], ◌∷◌, map, if◌then◌else◌, Uuid, length, get_elem?,
  position, find, is_some_eq, ltb, leb, ◌+◌, ◌%◌, retain, get_or_else, true, false, is_nil,
}
use jmux.Base.Map.{contains_key}
use jmux.Base.Text.{Text}
use jmux.Workspace.{Workspace}

pub record WorkspaceGroup : Type 0 where
  pub id : Uuid
  pub name : Text
  pub color : Option Text
  pub collapsed : Bool
  pub window_id : Option Uuid

pub record ClosedEntry (F : Type 0) : Type 0 where
  pub workspace : Workspace F
  pub closed_at : ℕ
  pub title : Text

pub record TabManager (F : Type 0) : Type 0 where
  pub workspaces : List (Workspace F)
  pub selected_index : Option ℕ
  pub groups : List WorkspaceGroup
  pub focus_history : List Uuid
  pub focus_pos : ℕ
  pub closed_stack : List (ClosedEntry F)

-- `NewWorkspacePlacement` (jmux/src/settings/mod.rs).
pub data Placement : Type 0 where
  end after_current top : Placement

abbrev pub closed_stack_cap : ℕ
closed_stack_cap = 10

abbrev pub focus_history_cap : ℕ
focus_history_cap = 50

module _ {F : Type 0} where
  abbrev pub has_id : Uuid → Workspace F → Bool
  has_id id ws = ws.id == id

  abbrev pub in_group : Uuid → Workspace F → Bool
  in_group group_id ws = is_some_eq ws.group_id group_id

  unfoldable pub len : TabManager F → ℕ
  len tabs = length tabs.workspaces

  -- `get`: the workspace at an index.
  abbrev pub get : TabManager F → ℕ → Option (Workspace F)
  get tabs index = get_elem? tabs.workspaces index

  -- The workspace at an optional index.
  abbrev pub at : List (Workspace F) → Option ℕ → Option (Workspace F)
  at workspaces none = none
  at workspaces (some index) = get_elem? workspaces index

  abbrev pub selected : TabManager F → Option (Workspace F)
  selected tabs = at tabs.workspaces tabs.selected_index

  -- `selected_for_window`; the window is not looked at.
  abbrev selected_for_window : TabManager F → Uuid → Option (Workspace F)
  selected_for_window tabs window_id = selected tabs

  abbrev pub id_of : Option (Workspace F) → Option Uuid
  id_of none = none
  id_of (some ws) = some ws.id

  abbrev pub selected_id : TabManager F → Option Uuid
  selected_id tabs = id_of (selected tabs)

  abbrev pub workspace : TabManager F → Uuid → Option (Workspace F)
  workspace tabs id = find (has_id id) tabs.workspaces

  abbrev workspace_index : TabManager F → Uuid → Option ℕ
  workspace_index tabs id = position (has_id id) tabs.workspaces

  abbrev pub holds_panel : Uuid → Workspace F → Bool
  holds_panel panel_id ws = contains_key ws.panels panel_id

  abbrev find_workspace_with_panel : TabManager F → Uuid → Option (Workspace F)
  find_workspace_with_panel tabs panel_id = find (holds_panel panel_id) tabs.workspaces

  abbrev pub group : TabManager F → Uuid → Option WorkspaceGroup
  group tabs id = find (λ g. g.id == id) tabs.groups

  -- `max_by` over the unread workspaces from index `i` on: the last of the newest ones.
  unfoldable pub latest_from : ℕ → Option (ℕ × ℕ) → List (Workspace F) → Option (ℕ × ℕ)
  latest_from i best [] = best
  latest_from i best (ws ∷ rest) =
      latest_from (i + 1)
        (if ltb 0 ws.unread_count
          then (elim best [
            | none ↦ some (i, get_or_else ws.latest_notification_at 0)
            | some (j, newest) ↦
                if leb newest (get_or_else ws.latest_notification_at 0)
                then some (i, get_or_else ws.latest_notification_at 0)
                else some (j, newest)
          ])
          else best)
        rest

  unfoldable pub latest_unread_index : TabManager F → Option ℕ
  unfolding latest_from
  latest_unread_index tabs = elim (latest_from 0 none tabs.workspaces) [
    | none ↦ none
    | some (i, newest) ↦ some i
  ]

  -- The sum of `u32` numbers, from `total` on; nothing where the checked addition panics.
  unfoldable sum_unread : ℕ → List (Workspace F) → Option ℕ
  sum_unread total [] = some total
  sum_unread total (ws ∷ rest) =
      let next = sum_unread (total + ws.unread_count) rest in
      if ltb (total + ws.unread_count) 4294967296 then next else none

  unfoldable group_unread_count : TabManager F → Uuid → Option ℕ
  unfolding sum_unread
  group_unread_count tabs group_id = sum_unread 0 (retain (in_group group_id) tabs.workspaces)
