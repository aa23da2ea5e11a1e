-- ===== src/Tabs/Close.antt =====
-- Closing several workspaces, and panels across workspaces (jmux/src/model/tab_manager.rs).
use jmux.Base.{
  ℕ, suc, ◌+◌, ◌-◌, ◌==◌, Bool, false, ◌&&◌, not, Option, none, some, List, [], ◌∷◌, map,
  if◌then◌else◌, Uuid, length, position, leb, is_nil, find, drop, take, erase_idx, update_first,
}
use jmux.Layout.{horizontal}
use jmux.Panel.{Panel}
use jmux.Workspace.{Workspace}
use jmux.Workspace.Panels
use jmux.Tabs.{TabManager, has_id, holds_panel}
use jmux.Tabs.Change.{remove_by_id}

module _ {ℓ} {A : Type ℓ} where
  -- `enumerate().filter(p).map(|(i, _)| i)`
  unfoldable pub indices : (A → Bool) → List A → List ℕ
  indices p [] = []
  indices p (x ∷ xs) = let rest = map suc (indices p xs) in if p x then 0 ∷ rest else rest

  -- `for &i in indices.iter().rev() { xs.remove(i); }`
  unfoldable pub remove_rev : List A → List ℕ → List A
  remove_rev xs [] = xs
  remove_rev xs (i ∷ is) = erase_idx (remove_rev xs is) i

-- `Some(len.saturating_sub(1))` where the index is past the end.
abbrev pub clip : ℕ → Option ℕ → Option ℕ
clip n none = none
clip n (some sel) = if leb n sel then some (n - 1) else some sel

module _ {F : Type 0} where
  abbrev pub not_pinned : Workspace F → Bool
  not_pinned ws = not ws.is_pinned

  abbrev pub is_other : Uuid → Workspace F → Bool
  is_other keep_id ws = not (ws.id == keep_id) && not ws.is_pinned

  -- The selection after `close_others`.
  abbrev pub kept_selection : List (Workspace F) → Uuid → Option ℕ
  kept_selection workspaces keep_id = elim (position (has_id keep_id) workspaces) [
    | some i ↦ some i
    | none ↦ if is_nil workspaces then none else some 0
  ]

  unfoldable pub close_others : TabManager F → Uuid → TabManager F × ℕ
  unfolding indices remove_rev
  close_others tabs keep_id =
      let to_remove = indices (is_other keep_id) tabs.workspaces in
      let workspaces = remove_rev tabs.workspaces to_remove in
      (
        record tabs { workspaces = workspaces; selected_index = kept_selection workspaces keep_id },
        length to_remove,
      )

  unfoldable pub close_above : TabManager F → Uuid → TabManager F × ℕ
  unfolding indices remove_rev
  close_above tabs workspace_id = elim (position (has_id workspace_id) tabs.workspaces) [
    | none ↦ (tabs, 0)
    | some target ↦
        let to_remove = indices not_pinned (take target tabs.workspaces) in
        let workspaces = remove_rev tabs.workspaces to_remove in
        (
          record tabs {
            workspaces = workspaces;
            selected_index = elim (position (has_id workspace_id) workspaces) [
              | some i ↦ some i
              | none ↦ tabs.selected_index
            ];
          },
          length to_remove,
        )
  ]

  unfoldable pub close_below : TabManager F → Uuid → TabManager F × ℕ
  unfolding indices remove_rev
  close_below tabs workspace_id = elim (position (has_id workspace_id) tabs.workspaces) [
    | none ↦ (tabs, 0)
    | some target ↦
        let to_remove =
          map (λ i. target + 1 + i) (indices not_pinned (drop (target + 1) tabs.workspaces)) in
        let workspaces = remove_rev tabs.workspaces to_remove in
        (
          record tabs {
            workspaces = workspaces;
            selected_index = clip (length workspaces) tabs.selected_index;
          },
          length to_remove,
        )
  ]

  -- The first workspace that holds the panel, written through `find_workspace_with_panel_mut`.
  unfoldable pub close_panel : TabManager F → Uuid → ℕ → TabManager F × Bool
  unfolding Panels.remove_panel remove_by_id
  close_panel tabs panel_id now = elim (find (holds_panel panel_id) tabs.workspaces) [
    | none ↦ (tabs, false)
    | some ws ↦
        let removed = Panels.remove_panel ws panel_id in
        let written = record tabs {
          workspaces = update_first (holds_panel panel_id) (λ _. removed.0) tabs.workspaces;
        } in
        (
          if removed.1 && is_nil removed.0.panels
              then (remove_by_id written ws.id now).0
              else written,
          removed.1,
        )
  ]

  -- The target gets the detached panel. `none` is the early return where the target is gone.
  unfoldable pub insert_into : F → TabManager F → Uuid → Panel F → TabManager F × Option Uuid
  unfolding Panels.insert_panel
  insert_into half tabs target panel = elim (find (has_id target) tabs.workspaces) [
    | none ↦ (tabs, none)
    | some ws ↦ (
      record tabs {
        workspaces =
            update_first (has_id target) (λ w. Panels.insert_panel half w panel horizontal)
              tabs.workspaces;
      },
      some target,
    )
  ]

  -- The source without the panel; a source that is then empty is removed.
  unfoldable pub drop_source : TabManager F → Uuid → Workspace F → ℕ → TabManager F
  unfolding remove_by_id
  drop_source tabs source left now =
      let written = record tabs {
        workspaces = update_first (has_id source) (λ _. left) tabs.workspaces;
      } in
      if is_nil left.panels then (remove_by_id written source now).0 else written

  unfoldable pub move_panel_to_workspace :
      F → TabManager F → Uuid → Uuid → ℕ → TabManager F × Option Uuid
  unfolding Panels.detach_panel drop_source insert_into
  move_panel_to_workspace half tabs panel_id target now =
      elim (find (holds_panel panel_id) tabs.workspaces) [
        | none ↦ (tabs, none)
        | some holder ↦
            if holder.id == target
            then (tabs, none)
            else elim (find (has_id target) tabs.workspaces) [
              | none ↦ (tabs, none)
              | some _ ↦ elim (find (has_id holder.id) tabs.workspaces) [
                | none ↦ (tabs, none)
                | some source ↦
                    let done = Panels.detach_panel source panel_id in
                    elim done.1 [
                      | none ↦ (tabs, none)
                      | some panel ↦
                          insert_into half (drop_source tabs source.id done.0 now) target panel
                    ]
              ]
            ]
      ]
