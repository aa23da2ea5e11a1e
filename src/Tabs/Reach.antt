-- ===== src/Tabs/Reach.antt =====
-- Every state that calls on the tab manager reach from a new one is sound
-- (jmux/src/model/tab_manager.rs).
use jmux.Base.{
  ℕ, zero, suc, ◌+◌, ◌≡◌, ◌<◌, inl, inr, arith, Bool, not, Option, none, some, List, [], ◌∷◌, ◌++◌,
  Uuid, length, map, position, is_nil, drop, take, retain, Option-cases, Bool-cases, position-lt,
  length-append, length-take,
}
use jmux.Base.Text.{Text}
use jmux.Workspace.{Workspace}
use jmux.Tabs.{TabManager, ClosedEntry, Placement, WorkspaceGroup, has_id}
use jmux.Tabs.Select.{
  select, select_by_id, select_next, select_previous, select_last, select_latest_unread,
  record_focus_if_changed, focus_back, focus_forward,
}
use jmux.Tabs.Change.{
  new, add_workspace, add_workspace_keep_selection, add_workspace_at_top,
  add_workspace_after_current, add_workspace_with_placement, clear_closed, remove, remove_by_id,
  move_workspace, reopen_last_closed, reopen_closed, set_closed_entries,
}
use jmux.Tabs.Close.{
  remove_rev, indices, not_pinned, kept_selection, clip, close_others, close_above, close_below,
  close_panel, move_panel_to_workspace,
}
use jmux.Tabs.Bulk.{remove_rev-take, remove_rev-drop}
use jmux.Tabs.Groups.{
  assign_to_group, move_group_before, set_groups, create_group, remove_group, rename_group,
  set_group_color, set_group_collapsed,
}
use jmux.Tabs.Inserted.{
  select_latest_unread-IsSound, add_workspace_at_top-IsSound, add_workspace_after_current-IsSound,
  add_workspace_with_placement-IsSound, clear_closed-IsSound,
}
use jmux.Tabs.Written.{
  map-IsSound, close_panel-IsSound, move_panel_to_workspace-IsSound, set_groups-IsSound,
  create_group-IsSound, remove_group-IsSound, rename_group-IsSound, set_group_color-IsSound,
  set_group_collapsed-IsSound,
}
use jmux.Tabs.Assign.{assign_to_group-IsSound}
use jmux.Tabs.Blocks.{move_group_before-IsSound}
use jmux.Tabs.Sound.{
  InRange, IsSound, new-IsSound, reselected, not_nil_length, select-IsSound, select_by_id-IsSound,
  select_next-IsSound, select_previous-IsSound, select_last-IsSound,
  record_focus_if_changed-IsSound,
}
use jmux.Tabs.Visits.{focus_back-IsSound, focus_forward-IsSound}
use jmux.Tabs.Kept.{
  add_workspace-IsSound, add_workspace_keep_selection-IsSound, remove-IsSound, remove_by_id-IsSound,
  move_workspace-IsSound, reopen_last_closed-IsSound, reopen_closed-IsSound,
  set_closed_entries-IsSound,
}

clip-InRange : (n : ℕ) (sel : Option ℕ) → 0 < n → InRange (clip n sel) n
clip-InRange n none h = tt
clip-InRange n (some i) h = ground arith

module _ {F : Type 0} where
  kept_selection-InRange :
      (xs : List (Workspace F)) (id : Uuid) → InRange (kept_selection xs id) (length xs)
  kept_selection-InRange xs id = elim (Option-cases (position (has_id id) xs)) [
    | inl e ↦ elim (Bool-cases (is_nil xs)) [
      | inl nil ↦ ground arith
      | inr other ↦ ground (arith, not_nil_length xs other)
    ]
    | inr (i, e) ↦ ground (arith, position-lt (has_id id) xs i e)
  ]

  close_others-IsSound :
      (tabs : TabManager F) (id : Uuid) → IsSound tabs → IsSound (close_others tabs id).0
  unfolding close_others
  close_others-IsSound tabs id s =
      reselected tabs (close_others tabs id).0.workspaces _ s
        (kept_selection-InRange (close_others tabs id).0.workspaces id)

  position_append :
      (p : Workspace F → Bool) (xs ys : List (Workspace F)) (j : ℕ)
      → position p ys ≡ some j
      → (i : ℕ) × (position p (xs ++ ys) ≡ some i)
  position_append p [] ys j h = (j, h)
  position_append p (x ∷ xs) ys j h = elim (Bool-cases (p x)) [
    | inl here ↦ (0, rw here)
    | inr later ↦ let (i, e) = position_append p xs ys j h in (suc i, rw (later, e))
  ]

  position-drop :
      (p : Workspace F → Bool) (xs : List (Workspace F)) (k : ℕ)
      → position p xs ≡ some k
      → position p (drop k xs) ≡ some 0
  position-drop p [] k h = cc
  position-drop p (x ∷ xs) zero h = h
  position-drop p (x ∷ xs) (suc k) h = position-drop p xs k (ground arith)

  -- The given workspace is found again after `close_above`.
  close_above-IsSound :
      (tabs : TabManager F) (id : Uuid) → IsSound tabs → IsSound (close_above tabs id).0
  unfolding close_above
  close_above-IsSound tabs id s = elim (Option-cases (position (has_id id) tabs.workspaces)) [
    | inl e ↦ rw (e, close_above) s
    | inr (k, e) ↦
        let before = retain (λ ws. not (not_pinned ws)) (take k tabs.workspaces) in
        let (i, found) =
          position_append (has_id id) before (drop k tabs.workspaces) 0
            (position-drop (has_id id) tabs.workspaces k e) in
        rw (e, close_above)
          (rw (above-eq k) (
            rw found (
              reselected tabs (before ++ drop k tabs.workspaces) (some i) s
                (position-lt (has_id id) (before ++ drop k tabs.workspaces) i found))))
  ]
    where
      above-eq :
          (k : ℕ)
          → remove_rev tabs.workspaces (indices not_pinned (take k tabs.workspaces))
            ≡ retain (λ ws. not (not_pinned ws)) (take k tabs.workspaces) ++ drop k tabs.workspaces
      above-eq k = remove_rev-take not_pinned k tabs.workspaces

  close_below-IsSound :
      (tabs : TabManager F) (id : Uuid) → IsSound tabs → IsSound (close_below tabs id).0
  unfolding close_below
  close_below-IsSound tabs id s = elim (Option-cases (position (has_id id) tabs.workspaces)) [
    | inl e ↦ rw (e, close_below) s
    | inr (k, e) ↦
        let kept = retain (λ ws. not (not_pinned ws)) (drop (k + 1) tabs.workspaces) in
        let some_left : 0 < length (take (k + 1) tabs.workspaces ++ kept) = omega (
          arith,
          length-append (take (k + 1) tabs.workspaces) kept,
          length-take (k + 1) tabs.workspaces,
          position-lt (has_id id) tabs.workspaces k e,
        ) in
        rw (e, close_below)
          (rw (remove_rev-drop not_pinned (k + 1) tabs.workspaces) (
            reselected tabs (take (k + 1) tabs.workspaces ++ kept) _ s
              (clip-InRange _ tabs.selected_index some_left)))
  ]

  -- One call of an operation that changes the state, or a write into workspaces through a borrow.
  pub data Step : TabManager F → TabManager F → Type 0 where
    select_step : (t : TabManager F) (i : ℕ) → Step t (select t i).0
    select_by_id_step : (t : TabManager F) (id : Uuid) → Step t (select_by_id t id).0
    next_step : (t : TabManager F) (wrap : Bool) → Step t (select_next t wrap)
    previous_step : (t : TabManager F) (wrap : Bool) → Step t (select_previous t wrap)
    last_step : (t : TabManager F) → Step t (select_last t)
    record_step : (t : TabManager F) → Step t (record_focus_if_changed t)
    back_step : (t : TabManager F) → Step t (focus_back t).0
    forward_step : (t : TabManager F) → Step t (focus_forward t).0
    add_step : (t : TabManager F) (ws : Workspace F) → Step t (add_workspace t ws)
    keep_step :
        (t : TabManager F) (ws : Workspace F) (p : Placement)
        → Step t (add_workspace_keep_selection t ws p)
    remove_step : (t : TabManager F) (i now : ℕ) → Step t (remove t i now).0
    remove_by_id_step : (t : TabManager F) (id : Uuid) (now : ℕ) → Step t (remove_by_id t id now).0
    move_step : (t : TabManager F) (from to : ℕ) → Step t (move_workspace t from to).0
    reopen_last_step : (t : TabManager F) → Step t (reopen_last_closed t).0
    reopen_step : (t : TabManager F) (id : Uuid) → Step t (reopen_closed t id).0
    restore_step :
        (t : TabManager F) (entries : List (ClosedEntry F)) → Step t (set_closed_entries t entries)
    others_step : (t : TabManager F) (id : Uuid) → Step t (close_others t id).0
    above_step : (t : TabManager F) (id : Uuid) → Step t (close_above t id).0
    below_step : (t : TabManager F) (id : Uuid) → Step t (close_below t id).0
    assign_step :
        (t : TabManager F) (id : Uuid) (group_id : Option Uuid)
        → Step t (assign_to_group t id group_id).0
    group_step :
        (t : TabManager F) (group_id : Uuid) (target : Option Uuid)
        → Step t (move_group_before t group_id target).0
    unread_step : (t : TabManager F) → Step t (select_latest_unread t).0
    top_step : (t : TabManager F) (ws : Workspace F) → Step t (add_workspace_at_top t ws)
    after_step : (t : TabManager F) (ws : Workspace F) → Step t (add_workspace_after_current t ws)
    placement_step :
        (t : TabManager F) (ws : Workspace F) (p : Placement)
        → Step t (add_workspace_with_placement t ws p)
    clear_step : (t : TabManager F) → Step t (clear_closed t)
    close_panel_step :
        (t : TabManager F) (panel_id : Uuid) (now : ℕ) → Step t (close_panel t panel_id now).0
    move_panel_step :
        (half : F) (t : TabManager F) (panel_id target : Uuid) (now : ℕ)
        → Step t (move_panel_to_workspace half t panel_id target now).0
    write_step :
        (t : TabManager F) (write : Workspace F → Workspace F)
        → Step t (record t { workspaces = map write t.workspaces })
    groups_step : (t : TabManager F) (groups : List WorkspaceGroup) → Step t (set_groups t groups)
    create_step :
        (t : TabManager F) (id : Uuid) (name : Text) (window_id : Option Uuid)
        → Step t (create_group t id name window_id)
    ungroup_step : (t : TabManager F) (id : Uuid) → Step t (remove_group t id).0
    rename_step : (t : TabManager F) (id : Uuid) (name : Text) → Step t (rename_group t id name).0
    color_step :
        (t : TabManager F) (id : Uuid) (color : Option Text) → Step t (set_group_color t id color).0
    collapse_step :
        (t : TabManager F) (id : Uuid) (collapsed : Option Bool)
        → Step t (set_group_collapsed t id collapsed).0

  pub data Reach (start : TabManager F) : TabManager F → Type 0 where
    here : Reach start start
    next : {t u : TabManager F} → Reach start t → Step t u → Reach start u

  Step-IsSound : {t u : TabManager F} → Step t u → IsSound t → IsSound u
  Step-IsSound (select_step t i) s = select-IsSound t i s
  Step-IsSound (select_by_id_step t id) s = select_by_id-IsSound t id s
  Step-IsSound (next_step t wrap) s = select_next-IsSound t wrap s
  Step-IsSound (previous_step t wrap) s = select_previous-IsSound t wrap s
  Step-IsSound (last_step t) s = select_last-IsSound t s
  Step-IsSound (record_step t) s = record_focus_if_changed-IsSound t s
  Step-IsSound (back_step t) s = focus_back-IsSound t s
  Step-IsSound (forward_step t) s = focus_forward-IsSound t s
  Step-IsSound (add_step t ws) s = add_workspace-IsSound t ws s
  Step-IsSound (keep_step t ws p) s = add_workspace_keep_selection-IsSound t ws p s
  Step-IsSound (remove_step t i now) s = remove-IsSound t i now s
  Step-IsSound (remove_by_id_step t id now) s = remove_by_id-IsSound t id now s
  Step-IsSound (move_step t from to) s = move_workspace-IsSound t from to s
  Step-IsSound (reopen_last_step t) s = reopen_last_closed-IsSound t s
  Step-IsSound (reopen_step t id) s = reopen_closed-IsSound t id s
  Step-IsSound (restore_step t entries) s = set_closed_entries-IsSound t entries s
  Step-IsSound (others_step t id) s = close_others-IsSound t id s
  Step-IsSound (above_step t id) s = close_above-IsSound t id s
  Step-IsSound (below_step t id) s = close_below-IsSound t id s
  Step-IsSound (assign_step t id group_id) s = assign_to_group-IsSound t id group_id s
  Step-IsSound (group_step t group_id target) s = move_group_before-IsSound t group_id target s
  Step-IsSound (unread_step t) s = select_latest_unread-IsSound t s
  Step-IsSound (top_step t ws) s = add_workspace_at_top-IsSound t ws s
  Step-IsSound (after_step t ws) s = add_workspace_after_current-IsSound t ws s
  Step-IsSound (placement_step t ws p) s = add_workspace_with_placement-IsSound t ws p s
  Step-IsSound (clear_step t) s = clear_closed-IsSound t s
  Step-IsSound (close_panel_step t panel_id now) s = close_panel-IsSound t panel_id now s
  Step-IsSound (move_panel_step half t panel_id target now) s =
      move_panel_to_workspace-IsSound half t panel_id target now s
  Step-IsSound (write_step t write) s = map-IsSound t write s
  Step-IsSound (groups_step t groups) s = set_groups-IsSound t groups s
  Step-IsSound (create_step t id name window_id) s = create_group-IsSound t id name window_id s
  Step-IsSound (ungroup_step t id) s = remove_group-IsSound t id s
  Step-IsSound (rename_step t id name) s = rename_group-IsSound t id name s
  Step-IsSound (color_step t id color) s = set_group_color-IsSound t id color s
  Step-IsSound (collapse_step t id collapsed) s = set_group_collapsed-IsSound t id collapsed s

  -- In every state that calls of the operations of the tab manager reach from a new one, those on
  -- the selection, the history, insertion, removal, moves, reopening, bulk closing, panels, groups
  -- and the closed stack, and writes into workspaces, the selected index is in range, `focus_pos`
  -- is an index of the focus history (or 0), the history holds at most 50 entries and the closed
  -- stack at most 10.
  pub Reach-IsSound : (ws : Workspace F) {t : TabManager F} → Reach (new ws) t → IsSound t
  Reach-IsSound ws here = new-IsSound ws
  Reach-IsSound ws (next r st) = Step-IsSound st (Reach-IsSound ws r)
