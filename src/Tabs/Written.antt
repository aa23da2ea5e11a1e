-- ===== src/Tabs/Written.antt =====
-- Operations that write workspaces or groups keep the tab manager sound: writes through a borrow,
-- panels that are closed or moved, and the groups (jmux/src/model/tab_manager.rs).
use jmux.Base.{
  ℕ, ◌==◌, ◌≡◌, refl, inl, inr, arith, Bool, Option, List, [], ◌∷◌, map, Uuid, length, is_nil, find,
  update_first, retain, not, Option-cases, Bool-cases, ◌&&◌, is_some,
}
use jmux.Base.Text.{Text}
use jmux.Panel.{Panel}
use jmux.Workspace.{Workspace}
use jmux.Workspace.Panels
use jmux.Tabs.{TabManager, WorkspaceGroup, has_id, holds_panel, group}
use jmux.Tabs.Close.{close_panel, insert_into, drop_source, move_panel_to_workspace}
use jmux.Tabs.Groups.{
  set_groups, create_group, ungroup, remove_group, write_group, rename_group, set_group_color,
  set_group_collapsed,
}
use jmux.Tabs.Sound.{IsSound, reselected}
use jmux.Tabs.Kept.{remove_by_id-IsSound}

length-map {ℓ} : {A B : Type ℓ} (f : A → B) (xs : List A) → length (map f xs) ≡ length xs
length-map f [] = refl
length-map f (x ∷ xs) = omega (arith, length-map f xs)

length-update_first {ℓ} :
    {A : Type ℓ} (p : A → Bool) (f : A → A) (xs : List A) → length (update_first p f xs) ≡ length xs
length-update_first p f [] = refl
length-update_first p f (x ∷ xs) = ground (arith, length-update_first p f xs)

module _ {F : Type 0} where
  rewritten-IsSound :
      (tabs : TabManager F) (workspaces : List (Workspace F))
      → length workspaces ≡ length tabs.workspaces
      → IsSound tabs
      → IsSound (record tabs { workspaces = workspaces })
  rewritten-IsSound tabs workspaces same s =
      reselected tabs workspaces tabs.selected_index s (rw same s.selection)

  regrouped :
      (tabs : TabManager F) (groups : List WorkspaceGroup)
      → IsSound tabs
      → IsSound (record tabs { groups = groups })
  regrouped tabs groups s = record {
    selection = s.selection;
    placed = s.placed;
    history = s.history;
    stack = s.stack;
  }

  -- A write into every workspace that it is meant for.
  pub map-IsSound :
      (tabs : TabManager F) (write : Workspace F → Workspace F)
      → IsSound tabs
      → IsSound (record tabs { workspaces = map write tabs.workspaces })
  map-IsSound tabs write s =
      rewritten-IsSound tabs (map write tabs.workspaces) (length-map write tabs.workspaces) s

  update_first-IsSound :
      (tabs : TabManager F) (p : Workspace F → Bool) (f : Workspace F → Workspace F)
      → IsSound tabs
      → IsSound (record tabs { workspaces = update_first p f tabs.workspaces })
  update_first-IsSound tabs p f s =
      rewritten-IsSound tabs (update_first p f tabs.workspaces)
        (length-update_first p f tabs.workspaces) s

  pub close_panel-IsSound :
      (tabs : TabManager F) (panel_id : Uuid) (now : ℕ)
      → IsSound tabs
      → IsSound (close_panel tabs panel_id now).0
  unfolding close_panel
  close_panel-IsSound tabs panel_id now s =
      elim (Option-cases (find (holds_panel panel_id) tabs.workspaces)) [
        | inl e ↦ rw (e, close_panel) s
        | inr (ws, e) ↦
            let removed = Panels.remove_panel ws panel_id in
            let written = record tabs {
              workspaces = update_first (holds_panel panel_id) (λ _. removed.0) tabs.workspaces;
            } in
            let t : IsSound written =
              update_first-IsSound tabs (holds_panel panel_id) (λ _. removed.0) s in
            rw (e, close_panel)
              (elim (Bool-cases (removed.1 && is_nil removed.0.panels)) [
                | inl emptied ↦ rw emptied (remove_by_id-IsSound written ws.id now t)
                | inr kept ↦ rw kept t
              ])
      ]

  drop_source-IsSound :
      (tabs : TabManager F) (source : Uuid) (left : Workspace F) (now : ℕ)
      → IsSound tabs
      → IsSound (drop_source tabs source left now)
  unfolding drop_source
  drop_source-IsSound tabs source left now s =
      let written = record tabs {
        workspaces = update_first (has_id source) (λ _. left) tabs.workspaces;
      } in
      let t : IsSound written = update_first-IsSound tabs (has_id source) (λ _. left) s in
      elim (Bool-cases (is_nil left.panels)) [
        | inl emptied ↦ rw emptied (remove_by_id-IsSound written source now t)
        | inr kept ↦ rw kept t
      ]

  insert_into-IsSound :
      (half : F) (tabs : TabManager F) (target : Uuid) (panel : Panel F)
      → IsSound tabs
      → IsSound (insert_into half tabs target panel).0
  unfolding insert_into
  insert_into-IsSound half tabs target panel s =
      elim (Option-cases (find (has_id target) tabs.workspaces)) [
        | inl e ↦ rw (e, insert_into) s
        | inr (ws, e) ↦ rw (e, insert_into) (update_first-IsSound tabs (has_id target) _ s)
      ]

  pub move_panel_to_workspace-IsSound :
      (half : F) (tabs : TabManager F) (panel_id target : Uuid) (now : ℕ)
      → IsSound tabs
      → IsSound (move_panel_to_workspace half tabs panel_id target now).0
  unfolding move_panel_to_workspace
  move_panel_to_workspace-IsSound half tabs panel_id target now s =
      elim (Option-cases (find (holds_panel panel_id) tabs.workspaces)) [
        | inl e ↦ rw (e, move_panel_to_workspace) s
        | inr (holder, e) ↦ elim (Bool-cases (holder.id == target)) [
          | inl same ↦ rw (e, same, move_panel_to_workspace) s
          | inr other ↦ elim (Option-cases (find (has_id target) tabs.workspaces)) [
            | inl gone ↦ rw (e, other, gone, move_panel_to_workspace) s
            | inr (ws, there) ↦ elim (Option-cases (find (has_id holder.id) tabs.workspaces)) [
              | inl lost ↦ rw (e, other, there, lost, move_panel_to_workspace) s
              | inr (source, found) ↦ elim (Option-cases (Panels.detach_panel source panel_id).1) [
                | inl unmoved ↦ rw (e, other, there, found, unmoved, move_panel_to_workspace) s
                | inr (panel, d) ↦
                    rw (e, other, there, found, d, move_panel_to_workspace)
                      (insert_into-IsSound half _ target panel
                        (drop_source-IsSound tabs source.id _ now s))
              ]
            ]
          ]
        ]
      ]

  pub set_groups-IsSound :
      (tabs : TabManager F) (groups : List WorkspaceGroup)
      → IsSound tabs
      → IsSound (set_groups tabs groups)
  unfolding set_groups
  set_groups-IsSound tabs groups s = regrouped tabs groups s

  pub create_group-IsSound :
      (tabs : TabManager F) (id : Uuid) (name : Text) (window_id : Option Uuid)
      → IsSound tabs
      → IsSound (create_group tabs id name window_id)
  unfolding create_group
  create_group-IsSound tabs id name window_id s = regrouped tabs _ s

  pub remove_group-IsSound :
      (tabs : TabManager F) (id : Uuid) → IsSound tabs → IsSound (remove_group tabs id).0
  unfolding remove_group
  remove_group-IsSound tabs id s =
      let groups = retain (λ (g : WorkspaceGroup). not (g.id == id)) tabs.groups in
      elim (Bool-cases (length groups == length tabs.groups)) [
        | inl none_gone ↦ rw none_gone (regrouped tabs groups s)
        | inr gone ↦
            rw gone
              (map-IsSound (record tabs { groups = groups }) (ungroup id) (regrouped tabs groups s))
      ]

  write_group-IsSound :
      (tabs : TabManager F) (id : Uuid) (write : WorkspaceGroup → WorkspaceGroup)
      → IsSound tabs
      → IsSound (write_group tabs id write).0
  write_group-IsSound tabs id write s = elim (Bool-cases (is_some (group tabs id))) [
    | inl e ↦ rw (e, write_group) (regrouped tabs _ s)
    | inr e ↦ rw (e, write_group) s
  ]

  pub rename_group-IsSound :
      (tabs : TabManager F) (id : Uuid) (name : Text)
      → IsSound tabs
      → IsSound (rename_group tabs id name).0
  unfolding rename_group
  rename_group-IsSound tabs id name s = write_group-IsSound tabs id _ s

  pub set_group_color-IsSound :
      (tabs : TabManager F) (id : Uuid) (color : Option Text)
      → IsSound tabs
      → IsSound (set_group_color tabs id color).0
  unfolding set_group_color
  set_group_color-IsSound tabs id color s = write_group-IsSound tabs id _ s

  pub set_group_collapsed-IsSound :
      (tabs : TabManager F) (id : Uuid) (collapsed : Option Bool)
      → IsSound tabs
      → IsSound (set_group_collapsed tabs id collapsed).0
  unfolding set_group_collapsed
  set_group_collapsed-IsSound tabs id collapsed s = elim (Option-cases (group tabs id)) [
    | inl e ↦ rw (e, set_group_collapsed) s
    | inr (g, e) ↦ rw (e, set_group_collapsed) (write_group-IsSound tabs id _ s)
  ]
