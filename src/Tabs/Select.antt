-- ===== src/Tabs/Select.antt =====
-- Selecting workspaces and the focus history (jmux/src/model/tab_manager.rs).
use jmux.Base.{
  ℕ, zero, suc, ◌+◌, ◌-◌, Bool, true, false, Option, none, some, [], ◌∷◌, ◌++◌, if◌then◌else◌, Uuid,
  length, get_elem?, position, ltb, is_nil, is_some_eq, take, keep_last,
}
use jmux.Tabs.{TabManager, has_id, selected_id, latest_unread_index, id_of, get, focus_history_cap}

abbrev pub next_index : ℕ → Bool → Option ℕ → Option ℕ
next_index n wrap none = some 0
next_index n wrap (some i) =
    if ltb (i + 1) n then some (i + 1) else (if wrap then some 0 else some i)

abbrev pub previous_index : ℕ → Bool → Option ℕ → Option ℕ
previous_index n wrap none = some (n - 1)
previous_index n wrap (some zero) = if wrap then some (n - 1) else some zero
previous_index n wrap (some (suc i)) = some i

module _ {F : Type 0} where
  unfoldable pub select : TabManager F → ℕ → TabManager F × Bool
  select tabs index =
      if ltb index (length tabs.workspaces)
      then (record tabs { selected_index = some index }, true)
      else (tabs, false)

  unfoldable pub select_by_id : TabManager F → Uuid → TabManager F × Bool
  select_by_id tabs id = elim (position (has_id id) tabs.workspaces) [
    | none ↦ (tabs, false)
    | some index ↦ (record tabs { selected_index = some index }, true)
  ]

  unfoldable pub select_next : TabManager F → Bool → TabManager F
  select_next tabs wrap = if is_nil tabs.workspaces then tabs else record tabs {
    selected_index = next_index (length tabs.workspaces) wrap tabs.selected_index;
  }

  unfoldable pub select_previous : TabManager F → Bool → TabManager F
  select_previous tabs wrap = if is_nil tabs.workspaces then tabs else record tabs {
    selected_index = previous_index (length tabs.workspaces) wrap tabs.selected_index;
  }

  unfoldable pub select_last : TabManager F → TabManager F
  select_last tabs =
      if is_nil tabs.workspaces
      then tabs
      else record tabs { selected_index = some (length tabs.workspaces - 1) }

  unfoldable pub select_latest_unread : TabManager F → TabManager F × Option Uuid
  unfolding latest_unread_index
  select_latest_unread tabs = elim (latest_unread_index tabs) [
    | none ↦ (tabs, none)
    | some index ↦ (record tabs { selected_index = some index }, id_of (get tabs index))
  ]

  -- The history without what stood after the current position, with `id` as its newest entry.
  unfoldable pub record_focus : TabManager F → Uuid → TabManager F
  record_focus tabs id =
      let history =
        keep_last focus_history_cap (take (tabs.focus_pos + 1) tabs.focus_history ++ id ∷ []) in
      record tabs { focus_history = history; focus_pos = length history - 1 }

  abbrev pub is_current : TabManager F → Uuid → Bool
  is_current tabs id = is_some_eq (get_elem? tabs.focus_history tabs.focus_pos) id

  unfoldable pub record_focus_if_changed : TabManager F → TabManager F
  unfolding record_focus
  record_focus_if_changed tabs = elim (selected_id tabs) [
    | none ↦ tabs
    | some id ↦ if is_current tabs id then tabs else record_focus tabs id
  ]

  -- One visit of a history position: the position is moved there, and its workspace is selected if
  -- it is still there.
  unfoldable pub visit : TabManager F → ℕ → TabManager F × Option Uuid
  unfolding select_by_id
  visit tabs pos =
      let moved = record tabs { focus_pos = pos } in
      elim (get_elem? tabs.focus_history pos) [
        | none ↦ (moved, none)
        | some id ↦
            let done = select_by_id moved id in if done.1 then (done.0, some id) else (moved, none)
      ]

  -- The loop of `focus_back`, by recursion on the position.
  unfoldable pub focus_back_from : TabManager F → ℕ → TabManager F × Option Uuid
  unfolding visit
  focus_back_from tabs zero = (tabs, none)
  focus_back_from tabs (suc pos) =
      let seen = visit tabs pos in
      elim seen.1 [ none ↦ focus_back_from seen.0 pos | some id ↦ (seen.0, some id) ]

  unfoldable pub focus_back : TabManager F → TabManager F × Option Uuid
  unfolding focus_back_from
  focus_back tabs = focus_back_from tabs tabs.focus_pos

  -- The loop of `focus_forward`, with as many rounds as there are later entries.
  unfoldable pub focus_forward_from : ℕ → TabManager F → ℕ → TabManager F × Option Uuid
  unfolding visit
  focus_forward_from zero tabs pos = (tabs, none)
  focus_forward_from (suc rounds) tabs pos =
      let seen = visit tabs (pos + 1) in
      elim seen.1 [
        | none ↦ focus_forward_from rounds seen.0 (pos + 1)
        | some id ↦ (seen.0, some id)
      ]

  unfoldable pub focus_forward : TabManager F → TabManager F × Option Uuid
  unfolding focus_forward_from
  focus_forward tabs =
      focus_forward_from (length tabs.focus_history - (tabs.focus_pos + 1)) tabs tabs.focus_pos
