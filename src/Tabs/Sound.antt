-- ===== src/Tabs/Sound.antt =====
-- The invariant of the tab manager, and that its operations keep it
-- (jmux/src/model/tab_manager.rs).
use jmux.Base.{
  ℕ, zero, suc, ◌+◌, ◌-◌, ◌≡◌, ◌≤◌, ◌<◌, inl, inr, arith, Bool, false, Option, none, some, List, [],
  ◌∷◌, ◌++◌, Uuid, length, get_elem?, position, is_nil, take, Option-cases, Bool-cases, position-lt,
  length-keep_last,
}
use jmux.Workspace.{Workspace}
use jmux.Tabs.{selected_id, TabManager, has_id, closed_stack_cap, focus_history_cap}
use jmux.Tabs.Select.{
  is_current, select, select_by_id, next_index, previous_index, select_next, select_previous,
  select_last, record_focus, record_focus_if_changed,
}
use jmux.Tabs.Change.{new, shifted, selection_after_remove, selection_after_move}

abbrev pub InRange : Option ℕ → ℕ → Type 0
InRange none n = Unit {0}
InRange (some i) n = i < n

next_index-InRange :
    (n : ℕ) (wrap : Bool) (sel : Option ℕ)
    → 0 < n
    → InRange sel n
    → InRange (next_index n wrap sel) n
next_index-InRange n wrap none p h = omega arith
next_index-InRange n wrap (some i) p h = ground arith

previous_index-InRange :
    (n : ℕ) (wrap : Bool) (sel : Option ℕ)
    → 0 < n
    → InRange sel n
    → InRange (previous_index n wrap sel) n
previous_index-InRange n wrap none p h = omega arith
previous_index-InRange n wrap (some zero) p h = ground arith
previous_index-InRange n wrap (some (suc i)) p h = omega arith

pub shifted-InRange :
    (n : ℕ) (sel : Option ℕ) (i : ℕ) → InRange sel n → InRange (shifted sel i) (suc n)
shifted-InRange n none i h = tt
shifted-InRange n (some sel) i h = ground arith

pub after_remove-InRange :
    (n i : ℕ) (sel : Option ℕ) → InRange sel (suc n) → InRange (selection_after_remove n i sel) n
after_remove-InRange zero i sel h = tt
after_remove-InRange (suc m) i none h = tt
after_remove-InRange (suc m) i (some sel) h = ground arith

pub after_move-InRange :
    (n from to : ℕ) (sel : Option ℕ)
    → from < n
    → to < n
    → InRange sel n
    → InRange (selection_after_move from to sel) n
after_move-InRange n from to none hf ht h = tt
after_move-InRange n from to (some sel) hf ht h = ground arith

module _ {F : Type 0} where
  -- The selected index is in range, the position is an index of the focus history unless that is
  -- empty, the history holds at most 50 entries and the closed stack at most 10.
  pub record IsSound (tabs : TabManager F) : Type 0 where
    pub selection : InRange tabs.selected_index (length tabs.workspaces)
    pub placed : tabs.focus_pos ≤ length tabs.focus_history - 1
    pub history : length tabs.focus_history ≤ focus_history_cap
    pub stack : length tabs.closed_stack ≤ closed_stack_cap

  pub new-IsSound : (ws : Workspace F) → IsSound (new ws)
  unfolding new
  new-IsSound ws = omega arith

  pub get_elem?-none-le : (xs : List (Workspace F)) (i : ℕ) → get_elem? xs i ≡ none → length xs ≤ i
  get_elem?-none-le [] i h = omega arith
  get_elem?-none-le (x ∷ xs) zero h = cc
  get_elem?-none-le (x ∷ xs) (suc i) h = omega (arith, get_elem?-none-le xs i h)

  pub get_elem?-some-lt :
      (xs : List (Workspace F)) (i : ℕ) (ws : Workspace F)
      → get_elem? xs i ≡ some ws
      → i < length xs
  get_elem?-some-lt [] i ws h = cc
  get_elem?-some-lt (x ∷ xs) zero ws h = omega arith
  get_elem?-some-lt (x ∷ xs) (suc i) ws h = omega (arith, get_elem?-some-lt xs i ws h)

  -- Only the selection, or the workspaces with it, changes.
  pub reselected :
      (tabs : TabManager F) (workspaces : List (Workspace F)) (sel : Option ℕ)
      → IsSound tabs
      → InRange sel (length workspaces)
      → IsSound (record tabs { workspaces = workspaces; selected_index = sel })
  reselected tabs workspaces sel s h = record {
    selection = h;
    placed = s.placed;
    history = s.history;
    stack = s.stack;
  }

  pub select-IsSound : (tabs : TabManager F) (i : ℕ) → IsSound tabs → IsSound (select tabs i).0
  unfolding select
  select-IsSound tabs i s = ground arith

  pub select_by_id-IsSound :
      (tabs : TabManager F) (id : Uuid) → IsSound tabs → IsSound (select_by_id tabs id).0
  unfolding select_by_id
  select_by_id-IsSound tabs id s = elim (Option-cases (position (has_id id) tabs.workspaces)) [
    | inl e ↦ rw (e, select_by_id) s
    | inr (i, e) ↦
        rw (e, select_by_id)
          (reselected tabs tabs.workspaces (some i) s (position-lt (has_id id) tabs.workspaces i e))
  ]

  pub not_nil_length : (xs : List (Workspace F)) → is_nil xs ≡ false → 0 < length xs
  not_nil_length [] h = cc
  not_nil_length (x ∷ xs) h = omega arith

  pub select_next-IsSound :
      (tabs : TabManager F) (wrap : Bool) → IsSound tabs → IsSound (select_next tabs wrap)
  unfolding select_next
  select_next-IsSound tabs wrap s = elim (Bool-cases (is_nil tabs.workspaces)) [
    | inl e ↦ rw (e, select_next) s
    | inr e ↦
        rw (e, select_next)
          (reselected tabs tabs.workspaces _ s (
            next_index-InRange (length tabs.workspaces) wrap tabs.selected_index
              (not_nil_length tabs.workspaces e) s.selection))
  ]

  pub select_previous-IsSound :
      (tabs : TabManager F) (wrap : Bool) → IsSound tabs → IsSound (select_previous tabs wrap)
  unfolding select_previous
  select_previous-IsSound tabs wrap s = elim (Bool-cases (is_nil tabs.workspaces)) [
    | inl e ↦ rw (e, select_previous) s
    | inr e ↦
        rw (e, select_previous)
          (reselected tabs tabs.workspaces _ s (
            previous_index-InRange (length tabs.workspaces) wrap tabs.selected_index
              (not_nil_length tabs.workspaces e) s.selection))
  ]

  pub select_last-IsSound : (tabs : TabManager F) → IsSound tabs → IsSound (select_last tabs)
  unfolding select_last
  select_last-IsSound tabs s = ground (arith, not_nil_length tabs.workspaces)

  record_focus-IsSound :
      (tabs : TabManager F) (id : Uuid) → IsSound tabs → IsSound (record_focus tabs id)
  unfolding record_focus
  record_focus-IsSound tabs id s = record {
    selection = s.selection;
    placed = omega arith;
    history =
        length-keep_last focus_history_cap
          (take (tabs.focus_pos + 1) tabs.focus_history ++ id ∷ []);
    stack = s.stack;
  }

  pub record_focus_if_changed-IsSound :
      (tabs : TabManager F) → IsSound tabs → IsSound (record_focus_if_changed tabs)
  unfolding record_focus_if_changed
  record_focus_if_changed-IsSound tabs s = elim (Option-cases (selected_id tabs)) [
    | inl e ↦ rw (e, record_focus_if_changed) s
    | inr (id, e) ↦ elim (Bool-cases (is_current tabs id)) [
      | inl same ↦ rw (e, same, record_focus_if_changed) s
      | inr changed ↦ rw (e, changed, record_focus_if_changed) (record_focus-IsSound tabs id s)
    ]
  ]
