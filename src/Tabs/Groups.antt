-- ===== src/Tabs/Groups.antt =====
-- The sidebar groups of the tab manager (jmux/src/model/tab_manager.rs).
use jmux.Base.{
  ℕ, zero, suc, ◌+◌, ◌==◌, Bool, true, false, not, Option, none, some, List, [], ◌∷◌, ◌++◌, map,
  if◌then◌else◌, Uuid, length, position, ltb, is_nil, is_some, is_some_eq, insert_idx, update_first,
  retain, get_or_else, get_last?,
}
use jmux.Base.Text.{Text}
use jmux.Workspace.{Workspace}
use jmux.Tabs.{TabManager, WorkspaceGroup, has_id, in_group, group, selected_id}
use jmux.Tabs.Change.{move_workspace}
use jmux.Tabs.Close.{indices}

-- `WorkspaceGroup::new`
unfoldable new_group : Uuid → Text → WorkspaceGroup
new_group id name = record {
  id = id;
  name = name;
  color = none;
  collapsed = false;
  window_id = none;
}

-- `workspaces[idx].f = ..`, at an index that the code has checked.
abbrev pub update_at {ℓ} : {A : Type ℓ} → List A → ℕ → (A → A) → List A
update_at [] i f = []
update_at (x ∷ xs) zero f = f x ∷ xs
update_at (x ∷ xs) (suc i) f = x ∷ update_at xs i f

abbrev is_group : Uuid → WorkspaceGroup → Bool
is_group id g = g.id == id

module _ {F : Type 0} where
  unfoldable pub set_groups : TabManager F → List WorkspaceGroup → TabManager F
  set_groups tabs groups = record tabs { groups = groups }

  unfoldable pub create_group : TabManager F → Uuid → Text → Option Uuid → TabManager F
  unfolding new_group
  create_group tabs id name window_id = record tabs {
    groups = tabs.groups ++ record (new_group id name) { window_id = window_id } ∷ [];
  }

  abbrev pub ungroup : Uuid → Workspace F → Workspace F
  ungroup id ws = if is_some_eq ws.group_id id then record ws { group_id = none } else ws

  unfoldable pub remove_group : TabManager F → Uuid → TabManager F × Bool
  remove_group tabs id =
      let groups = retain (λ (g : WorkspaceGroup). not (g.id == id)) tabs.groups in
      if length groups == length tabs.groups
      then (record tabs { groups = groups }, false)
      else (record tabs { groups = groups; workspaces = map (ungroup id) tabs.workspaces }, true)

  -- A write through `group_mut`; false where there is no such group.
  abbrev pub write_group :
      TabManager F → Uuid → (WorkspaceGroup → WorkspaceGroup) → TabManager F × Bool
  write_group tabs id write =
      if is_some (group tabs id)
      then (record tabs { groups = update_first (is_group id) write tabs.groups }, true)
      else (tabs, false)

  unfoldable pub rename_group : TabManager F → Uuid → Text → TabManager F × Bool
  rename_group tabs id name = write_group tabs id (λ g. record g { name = name })

  unfoldable pub set_group_color : TabManager F → Uuid → Option Text → TabManager F × Bool
  set_group_color tabs id color = write_group tabs id (λ g. record g { color = color })

  unfoldable pub set_group_collapsed :
      TabManager F → Uuid → Option Bool → TabManager F × Option Bool
  set_group_collapsed tabs id collapsed = elim (group tabs id) [
    | none ↦ (tabs, none)
    | some g ↦
        let new_state = get_or_else collapsed (not g.collapsed) in
        ((write_group tabs id (λ h. record h { collapsed = new_state })).0, some new_state)
  ]

  -- The indices of the group's members other than `idx`, the last of which is asked for.
  unfoldable pub last_member : List (Workspace F) → ℕ → Uuid → Option ℕ
  unfolding indices
  last_member workspaces idx group_id =
      get_last? (retain (λ i. not (i == idx)) (indices (in_group group_id) workspaces))

  unfoldable pub join_members : TabManager F → ℕ → Option Uuid → TabManager F
  unfolding last_member move_workspace
  join_members tabs idx none = tabs
  join_members tabs idx (some group_id) = elim (last_member tabs.workspaces idx group_id) [
    | none ↦ tabs
    | some last ↦ (move_workspace tabs idx (if ltb idx last then last else last + 1)).0
  ]

  -- The group to assign exists, or there is none to assign.
  abbrev pub group_exists : TabManager F → Option Uuid → Bool
  group_exists tabs none = true
  group_exists tabs (some group_id) = is_some (group tabs group_id)

  unfoldable pub assign_to_group : TabManager F → Uuid → Option Uuid → TabManager F × Bool
  unfolding join_members
  assign_to_group tabs workspace_id group_id =
      if not (group_exists tabs group_id)
      then (tabs, false)
      else elim (position (has_id workspace_id) tabs.workspaces) [
        | none ↦ (tabs, false)
        | some idx ↦
            let assigned = record tabs {
              workspaces = update_at tabs.workspaces idx (λ ws. record ws { group_id = group_id });
            } in
            (join_members assigned idx group_id, true)
      ]

  -- The loop that takes the members out: they and the others, each in their order.
  unfoldable pub extract : Uuid → List (Workspace F) → List (Workspace F) × List (Workspace F)
  extract group_id [] = ([], [])
  extract group_id (ws ∷ rest) =
      let (members, others) = extract group_id rest in
      if in_group group_id ws then (ws ∷ members, others) else (members, ws ∷ others)

  -- `for (offset, m) in members.enumerate() { insert(at + offset, m) }`
  unfoldable pub insert_all : List (Workspace F) → ℕ → List (Workspace F) → List (Workspace F)
  insert_all workspaces at [] = workspaces
  insert_all workspaces at (m ∷ members) = insert_all (insert_idx workspaces at m) (at + 1) members

  abbrev pub insert_position : List (Workspace F) → Option Uuid → ℕ
  insert_position others none = length others
  insert_position others (some target) =
      get_or_else (position (has_id target) others) (length others)

  unfoldable pub move_group_before : TabManager F → Uuid → Option Uuid → TabManager F × Bool
  unfolding extract insert_all
  move_group_before tabs group_id target =
      if not (is_some (group tabs group_id))
      then (tabs, false)
      else (let (members, others) = extract group_id tabs.workspaces in
          if is_nil members
          then (record tabs { workspaces = others }, false)
          else (let workspaces = insert_all others (insert_position others target) members in
              (
                record tabs {
                  workspaces = workspaces;
                  selected_index = elim (selected_id tabs) [
                    | none ↦ tabs.selected_index
                    | some id ↦ position (has_id id) workspaces
                  ];
                },
                true,
              )))
