-- ===== src/Tabs/Inserted.antt =====
-- Insertions that select the new workspace, the jump to the newest unread one, and forgetting what was
-- closed, keep the tab manager sound (jmux/src/model/tab_manager.rs).
use mathlib.Core.Path.{subst}
use jmux.Base.{
  ℕ, suc, ◌+◌, ◌<◌, inl, inr, arith, Option, none, some, List, [], ◌∷◌, length, leb, ltb,
  insert_idx, Option-cases, Bool-cases, length-insert_idx, get_or_else,
}
use jmux.Workspace.{Workspace}
use jmux.Tabs.{TabManager, Placement, end, after_current, top, latest_from, latest_unread_index}
use jmux.Tabs.Select.{select_latest_unread}
use jmux.Tabs.Change.{
  add_workspace_at_top, add_workspace_after_current, add_workspace_with_placement, clear_closed,
}
use jmux.Tabs.Sound.{InRange, IsSound, reselected}
use jmux.Tabs.Kept.{add_workspace-IsSound}

abbrev Below : ℕ → Option (ℕ × ℕ) → Type 0
Below n none = Unit {0}
Below n (some (i, newest)) = i < n

weaker : (n : ℕ) (best : Option (ℕ × ℕ)) → Below n best → Below (n + 1) best
weaker n none h = tt
weaker n (some (i, newest)) h = omega arith

module _ {F : Type 0} where
  pub add_workspace_at_top-IsSound :
      (tabs : TabManager F) (ws : Workspace F)
      → IsSound tabs
      → IsSound (add_workspace_at_top tabs ws)
  unfolding add_workspace_at_top
  add_workspace_at_top-IsSound tabs ws s =
      reselected tabs (insert_idx tabs.workspaces 0 ws) (some 0) s (omega arith)

  pub add_workspace_after_current-IsSound :
      (tabs : TabManager F) (ws : Workspace F)
      → IsSound tabs
      → IsSound (add_workspace_after_current tabs ws)
  unfolding add_workspace_after_current
  add_workspace_after_current-IsSound tabs ws s = placed tabs.selected_index s.selection
    where
      placed :
          (sel : Option ℕ)
          → InRange sel (length tabs.workspaces)
          → let index : ℕ = elim sel [ none ↦ 0 | some i ↦ i + 1 ] in
            IsSound (record tabs {
              workspaces = insert_idx tabs.workspaces index ws;
              selected_index = some index;
            })
      placed none h = reselected tabs (insert_idx tabs.workspaces 0 ws) (some 0) s (omega arith)
      placed (some i) h =
          reselected tabs (insert_idx tabs.workspaces (i + 1) ws) (some (i + 1)) s
            (omega (arith, length-insert_idx tabs.workspaces (i + 1) ws))

  pub add_workspace_with_placement-IsSound :
      (tabs : TabManager F) (ws : Workspace F) (p : Placement)
      → IsSound tabs
      → IsSound (add_workspace_with_placement tabs ws p)
  unfolding add_workspace_with_placement
  add_workspace_with_placement-IsSound tabs ws end s = add_workspace-IsSound tabs ws s
  add_workspace_with_placement-IsSound tabs ws after_current s =
      add_workspace_after_current-IsSound tabs ws s
  add_workspace_with_placement-IsSound tabs ws top s = add_workspace_at_top-IsSound tabs ws s

  further :
      (i : ℕ) (xs : List (Workspace F)) (best : Option (ℕ × ℕ))
      → Below (i + 1 + length xs) best
      → Below (i + suc (length xs)) best
  further i xs best h = subst (λ n. Below n best) (omega arith) h

  latest_from-Below :
      (xs : List (Workspace F)) (i : ℕ) (best : Option (ℕ × ℕ))
      → Below i best
      → Below (i + length xs) (latest_from i best xs)
  unfolding latest_from
  latest_from-Below [] i best h = subst (λ n. Below n best) (omega arith) h
  latest_from-Below (ws ∷ xs) i none h = elim (Bool-cases (ltb 0 ws.unread_count)) [
    | inl unread ↦
        rw unread (further i xs _ (latest_from-Below xs (i + 1) (some (i, _)) (omega arith)))
    | inr read ↦ rw read (further i xs _ (latest_from-Below xs (i + 1) none tt))
  ]
  latest_from-Below (ws ∷ xs) i (some (j, newest)) h = elim (Bool-cases (ltb 0 ws.unread_count)) [
    | inl unread ↦ elim (Bool-cases (leb newest (get_or_else ws.latest_notification_at 0))) [
      | inl newer ↦
          rw (unread, newer)
            (further i xs _ (latest_from-Below xs (i + 1) (some (i, _)) (omega arith)))
      | inr older ↦
          rw (unread, older)
            (further i xs _ (latest_from-Below xs (i + 1) (some (j, newest)) (omega arith)))
    ]
    | inr read ↦
        rw read (further i xs _ (latest_from-Below xs (i + 1) (some (j, newest)) (omega arith)))
  ]

  pub select_latest_unread-IsSound :
      (tabs : TabManager F) → IsSound tabs → IsSound (select_latest_unread tabs).0
  unfolding select_latest_unread latest_unread_index
  select_latest_unread-IsSound tabs s = elim (Option-cases (latest_from 0 none tabs.workspaces)) [
    | inl e ↦ rw (e, select_latest_unread) s
    | inr ((i, newest), e) ↦
        rw (e, select_latest_unread)
          (reselected tabs tabs.workspaces (some i) s (
            omega (
              arith,
              subst (λ b. Below (0 + length tabs.workspaces) b) e
                  (latest_from-Below tabs.workspaces 0 none tt),
            )))
  ]

  pub clear_closed-IsSound : (tabs : TabManager F) → IsSound tabs → IsSound (clear_closed tabs)
  unfolding clear_closed
  clear_closed-IsSound tabs s = record {
    selection = s.selection;
    placed = s.placed;
    history = s.history;
    stack = omega arith;
  }
