-- ===== src/Tabs/Change.antt =====
-- Adding, removing, moving and reopening workspaces (jmux/src/model/tab_manager.rs). `now` is the
-- time that `SystemTime::now()` returns.
use jmux.Base.{
  ℕ, zero, suc, ◌+◌, ◌-◌, ◌==◌, Bool, true, false, ◌&&◌, Option, none, some, List, [], ◌∷◌, ◌++◌,
  if◌then◌else◌, Uuid, length, get_elem?, position, ltb, leb, is_nil, erase_idx, insert_idx,
  push_capped, keep_last, pop, is_some,
}
use jmux.Workspace.{Workspace}
use jmux.Workspace.Panels
use jmux.Tabs.{
  TabManager, ClosedEntry, Placement, end, after_current, top, has_id, workspace, closed_stack_cap,
}

-- Where `add_workspace_keep_selection` inserts.
abbrev pub insert_at : Placement → ℕ → Option ℕ → ℕ
insert_at end n sel = n
insert_at top n sel = 0
insert_at after_current n none = n
insert_at after_current n (some i) = i + 1

-- The selection after an insertion that leaves the user where they are.
abbrev pub shifted : Option ℕ → ℕ → Option ℕ
shifted none index = none
shifted (some sel) index = if leb index sel then some (sel + 1) else some sel

-- The selection after the workspace at `index` is removed, with `n` left.
abbrev pub selection_after_remove : ℕ → ℕ → Option ℕ → Option ℕ
selection_after_remove zero index sel = none
selection_after_remove (suc m) index none = none
selection_after_remove (suc m) index (some sel) =
    if leb (suc m) sel then some m else (if ltb index sel then some (sel - 1) else some sel)

-- The selection after a move follows the moved workspace.
abbrev pub selection_after_move : ℕ → ℕ → Option ℕ → Option ℕ
selection_after_move from to none = none
selection_after_move from to (some selected) =
    if selected == from
    then some to
    else (if ltb from to && ltb from selected && leb selected to
        then some (selected - 1)
        else (if ltb to from && leb to selected && ltb selected from
            then some (selected + 1)
            else some selected))

module _ {F : Type 0} where
  -- `new`, around the default workspace.
  unfoldable pub new : Workspace F → TabManager F
  new ws = record {
    workspaces = ws ∷ [];
    selected_index = some 0;
    groups = [];
    focus_history = [];
    focus_pos = 0;
    closed_stack = [];
  }

  unfoldable pub empty : TabManager F
  empty = record {
    workspaces = [];
    selected_index = none;
    groups = [];
    focus_history = [];
    focus_pos = 0;
    closed_stack = [];
  }

  unfoldable pub add_workspace : TabManager F → Workspace F → TabManager F
  add_workspace tabs ws =
      let workspaces = tabs.workspaces ++ ws ∷ [] in
      record tabs { workspaces = workspaces; selected_index = some (length workspaces - 1) }

  unfoldable pub add_workspace_at_top : TabManager F → Workspace F → TabManager F
  add_workspace_at_top tabs ws = record tabs {
    workspaces = insert_idx tabs.workspaces 0 ws;
    selected_index = some 0;
  }

  unfoldable pub add_workspace_after_current : TabManager F → Workspace F → TabManager F
  add_workspace_after_current tabs ws =
      let index : ℕ = elim tabs.selected_index [ none ↦ 0 | some i ↦ i + 1 ] in
      record tabs { workspaces = insert_idx tabs.workspaces index ws; selected_index = some index }

  unfoldable pub add_workspace_with_placement :
      TabManager F → Workspace F → Placement → TabManager F
  unfolding add_workspace add_workspace_at_top add_workspace_after_current
  add_workspace_with_placement tabs ws end = add_workspace tabs ws
  add_workspace_with_placement tabs ws after_current = add_workspace_after_current tabs ws
  add_workspace_with_placement tabs ws top = add_workspace_at_top tabs ws

  unfoldable pub add_workspace_keep_selection :
      TabManager F → Workspace F → Placement → TabManager F
  add_workspace_keep_selection tabs ws placement =
      let index = insert_at placement (length tabs.workspaces) tabs.selected_index in
      record tabs {
        workspaces = insert_idx tabs.workspaces index ws;
        selected_index = shifted tabs.selected_index index;
      }

  -- The closed stack with the workspace recorded, unless it is empty.
  unfoldable pub record_closed : List (ClosedEntry F) → Workspace F → ℕ → List (ClosedEntry F)
  unfolding Panels.display_title
  record_closed stack ws now =
      if is_nil ws.panels
      then stack
      else push_capped closed_stack_cap stack
          (record { workspace = ws; closed_at = now; title = Panels.display_title ws })

  -- The state without the workspace `ws`, which stands at `index`.
  unfoldable pub without : TabManager F → ℕ → Workspace F → ℕ → TabManager F
  unfolding record_closed
  without tabs index ws now =
      let workspaces = erase_idx tabs.workspaces index in
      record tabs {
        workspaces = workspaces;
        closed_stack = record_closed tabs.closed_stack ws now;
        selected_index = selection_after_remove (length workspaces) index tabs.selected_index;
      }

  unfoldable pub remove : TabManager F → ℕ → ℕ → TabManager F × Option (Workspace F)
  unfolding without
  remove tabs index now = elim (get_elem? tabs.workspaces index) [
    | none ↦ (tabs, none)
    | some ws ↦ (without tabs index ws now, some ws)
  ]

  unfoldable pub remove_by_id : TabManager F → Uuid → ℕ → TabManager F × Option (Workspace F)
  unfolding remove
  remove_by_id tabs id now = elim (position (has_id id) tabs.workspaces) [
    | none ↦ (tabs, none)
    | some index ↦ remove tabs index now
  ]

  unfoldable pub move_workspace : TabManager F → ℕ → ℕ → TabManager F × Bool
  move_workspace tabs from to = elim (get_elem? tabs.workspaces from) [
    | none ↦ (tabs, false)
    | some ws ↦
        if leb (length tabs.workspaces) to
        then (tabs, false)
        else (if from == to then (tabs, true) else (
          record tabs {
            workspaces = insert_idx (erase_idx tabs.workspaces from) to ws;
            selected_index = selection_after_move from to tabs.selected_index;
          },
          true,
        ))
  ]

  -- A closed workspace is added again, unless one with its identifier is still there.
  unfoldable pub reopen : TabManager F → Workspace F → TabManager F
  unfolding add_workspace
  reopen tabs ws = if is_some (workspace tabs ws.id) then tabs else add_workspace tabs ws

  unfoldable pub reopen_last_closed : TabManager F → TabManager F × Option Uuid
  unfolding reopen
  reopen_last_closed tabs = elim (pop tabs.closed_stack) [
    | none ↦ (tabs, none)
    | some (entry, rest) ↦
        (reopen (record tabs { closed_stack = rest }) entry.workspace, some entry.workspace.id)
  ]

  unfoldable pub reopen_closed : TabManager F → Uuid → TabManager F × Option Uuid
  unfolding reopen
  reopen_closed tabs workspace_id =
      elim (position (λ (e : ClosedEntry F). e.workspace.id == workspace_id) tabs.closed_stack) [
        | none ↦ (tabs, none)
        | some pos ↦ elim (get_elem? tabs.closed_stack pos) [
          | none ↦ (tabs, none)
          | some entry ↦ (
            reopen (record tabs { closed_stack = erase_idx tabs.closed_stack pos }) entry.workspace,
            some entry.workspace.id,
          )
        ]
      ]

  unfoldable pub clear_closed : TabManager F → TabManager F
  clear_closed tabs = record tabs { closed_stack = [] }

  unfoldable pub set_closed_entries : TabManager F → List (ClosedEntry F) → TabManager F
  set_closed_entries tabs entries = record tabs {
    closed_stack = keep_last closed_stack_cap entries;
  }
