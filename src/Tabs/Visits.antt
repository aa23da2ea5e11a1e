-- ===== src/Tabs/Visits.antt =====
-- Going back and forward in the focus history (jmux/src/model/tab_manager.rs) keeps the invariant of
-- the tab manager.
use jmux.Base.{
  ℕ, zero, suc, ◌+◌, ◌-◌, ◌≡◌, ◌≤◌, refl, inl, inr, arith, Uuid, length, get_elem?, Option-cases,
  Bool-cases,
}
use jmux.Tabs.{TabManager}
use jmux.Tabs.Select.{
  select_by_id, visit, focus_back_from, focus_back, focus_forward_from, focus_forward,
}
use jmux.Tabs.Sound.{IsSound, select_by_id-IsSound}

module _ {F : Type 0} where
  -- Selecting leaves the history as it is.
  select_by_id-history :
      (tabs : TabManager F) (id : Uuid)
      → ((select_by_id tabs id).0.focus_history ≡ tabs.focus_history)
        × ((select_by_id tabs id).0.workspaces ≡ tabs.workspaces)
  unfolding select_by_id
  select_by_id-history tabs id = ground arith

  -- The state with the position moved to `pos`, which is within the history.
  moved-IsSound :
      (tabs : TabManager F) (pos : ℕ)
      → pos ≤ length tabs.focus_history - 1
      → IsSound tabs
      → IsSound (record tabs { focus_pos = pos })
  moved-IsSound tabs pos h s = record {
    selection = s.selection;
    placed = h;
    history = s.history;
    stack = s.stack;
  }

  visit-IsSound :
      (tabs : TabManager F) (pos : ℕ)
      → pos ≤ length tabs.focus_history - 1
      → IsSound tabs
      → IsSound (visit tabs pos).0 × ((visit tabs pos).0.focus_history ≡ tabs.focus_history)
  unfolding visit
  visit-IsSound tabs pos h s =
      let moved : TabManager F = record tabs { focus_pos = pos } in
      let kept = moved-IsSound tabs pos h s in
      elim (Option-cases (get_elem? tabs.focus_history pos)) [
        | inl e ↦ rw (e, visit) (kept, refl)
        | inr (id, e) ↦ elim (Bool-cases (select_by_id moved id).1) [
          | inl found ↦
              rw (e, visit, found)
                (select_by_id-IsSound moved id kept, (select_by_id-history moved id).0)
          | inr gone ↦ rw (e, visit, gone) (kept, refl)
        ]
      ]

  focus_back_from-IsSound :
      (tabs : TabManager F) (pos : ℕ)
      → pos ≤ length tabs.focus_history - 1
      → IsSound tabs
      → IsSound (focus_back_from tabs pos).0
  unfolding focus_back_from
  focus_back_from-IsSound tabs zero h s = s
  focus_back_from-IsSound tabs (suc pos) h s =
      let (kept, same) = visit-IsSound tabs pos (omega arith) s in
      elim (Option-cases (visit tabs pos).1) [
        | inl e ↦
            rw (e, focus_back_from)
              (focus_back_from-IsSound (visit tabs pos).0 pos (rw same (omega arith)) kept)
        | inr (id, e) ↦ rw (e, focus_back_from) kept
      ]

  pub focus_back-IsSound : (tabs : TabManager F) → IsSound tabs → IsSound (focus_back tabs).0
  unfolding focus_back
  focus_back-IsSound tabs s = focus_back_from-IsSound tabs tabs.focus_pos s.placed s

  focus_forward_from-IsSound :
      (rounds : ℕ) (tabs : TabManager F) (pos : ℕ)
      → pos + rounds ≤ length tabs.focus_history - 1
      → IsSound tabs
      → IsSound (focus_forward_from rounds tabs pos).0
  unfolding focus_forward_from
  focus_forward_from-IsSound zero tabs pos h s = s
  focus_forward_from-IsSound (suc rounds) tabs pos h s =
      let (kept, same) = visit-IsSound tabs (pos + 1) (omega arith) s in
      elim (Option-cases (visit tabs (pos + 1)).1) [
        | inl e ↦
            rw (e, focus_forward_from)
              (focus_forward_from-IsSound rounds (visit tabs (pos + 1)).0 (pos + 1)
                (rw same (omega arith)) kept)
        | inr (id, e) ↦ rw (e, focus_forward_from) kept
      ]

  pub focus_forward-IsSound : (tabs : TabManager F) → IsSound tabs → IsSound (focus_forward tabs).0
  unfolding focus_forward
  focus_forward-IsSound tabs s =
      focus_forward_from-IsSound (length tabs.focus_history - (tabs.focus_pos + 1)) tabs
        tabs.focus_pos (omega (arith, s.placed)) s
