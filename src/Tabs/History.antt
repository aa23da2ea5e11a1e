-- ===== src/Tabs/History.antt =====
-- Going back in the focus history, and reopening what was closed
-- (jmux/src/model/tab_manager.rs).
use jmux.Base.{
  ℕ, zero, suc, ◌≡◌, ◌⊎◌, ◌<◌, ap, refl, inl, inr, ◌∙◌, arith, true, false, Option, none, some,
  Uuid, get_elem?, position, is_some, Option-cases, Bool-cases, get_elem?-position, ==_iff,
}
use jmux.Tabs.{TabManager, has_id, selected_id}
use jmux.Tabs.Select.{select_by_id, visit, focus_back_from, focus_back}

module _ {F : Type 0} where
  -- `select_by_id` succeeds exactly if a workspace has the identifier, and then the selected
  -- workspace has it.
  select_by_id_lem :
      (tabs : TabManager F) (id : Uuid)
      → ((select_by_id tabs id).1 ≡ is_some (position (has_id id) tabs.workspaces))
        × ((select_by_id tabs id).1 ≡ true → selected_id (select_by_id tabs id).0 ≡ some id)
  unfolding select_by_id
  select_by_id_lem tabs id = elim (Option-cases (position (has_id id) tabs.workspaces)) [
    | inl e ↦ rw (e, select_by_id) (refl, λ h. cc)
    | inr (i, e) ↦
        let (ws, at_i, same) = get_elem?-position (has_id id) tabs.workspaces i e in
        rw (e, select_by_id) (refl, λ _. rw at_i (ap some ((==_iff ws.id id).0 same)))
  ]

  -- A position is passed over if nothing stands there or no workspace has the identifier there.
  abbrev pub IsDead : TabManager F → ℕ → Type 0
  IsDead tabs pos =
      (id : Uuid)
      → get_elem? tabs.focus_history pos ≡ some id
      → position (has_id id) tabs.workspaces ≡ none

  -- What a visit does: it passes over a dead entry, or selects the workspace of the entry.
  visit_cases :
      (tabs : TabManager F) (pos : ℕ)
      → ((visit tabs pos ≡ (record tabs { focus_pos = pos }, none)) × IsDead tabs pos)
        ⊎ ((id : Uuid) × (get_elem? tabs.focus_history pos ≡ some id)
            × (visit tabs pos ≡ ((select_by_id (record tabs { focus_pos = pos }) id).0, some id))
            × ((select_by_id (record tabs { focus_pos = pos }) id).1 ≡ true))
  unfolding visit
  visit_cases tabs pos = elim (Option-cases (get_elem? tabs.focus_history pos)) [
    | inl e ↦ inl (rw (visit, e), λ id h. cc)
    | inr (id, e) ↦ elim (Bool-cases (select_by_id (record tabs { focus_pos = pos }) id).1) [
      | inl found ↦ inr (id, e, rw (visit, e, found), found)
      | inr gone ↦ inl (
        rw (visit, e, gone),
        λ other h.
            gone_position (record tabs { focus_pos = pos }) other (rw (id_eq id other e h) at gone),
      )
    ]
  ]
    where
      id_eq :
          (a b : Uuid)
          → get_elem? tabs.focus_history pos ≡ some a
          → get_elem? tabs.focus_history pos ≡ some b
          → a ≡ b
      id_eq a b h k = cc

      gone_position :
          (t : TabManager F) (b : Uuid)
          → (select_by_id t b).1 ≡ false
          → position (has_id b) t.workspaces ≡ none
      gone_position t b h = ground (arith, (select_by_id_lem t b).0)

  select_by_id-focus_pos :
      (tabs : TabManager F) (id : Uuid)
      → ((select_by_id tabs id).0.focus_pos ≡ tabs.focus_pos)
        × ((select_by_id tabs id).0.focus_history ≡ tabs.focus_history)
  unfolding select_by_id
  select_by_id-focus_pos tabs id = ground arith

  -- One round of the loop, after a visit.
  back_after : ℕ → TabManager F × Option Uuid → TabManager F × Option Uuid
  back_after pos seen = elim seen.1 [
    | none ↦ focus_back_from seen.0 pos
    | some id ↦ (seen.0, some id)
  ]

  focus_back_from-suc :
      (tabs : TabManager F) (pos : ℕ)
      → focus_back_from tabs (suc pos) ≡ back_after pos (visit tabs pos)
  unfolding focus_back_from back_after
  focus_back_from-suc tabs pos = refl

  back_dead :
      (tabs next : TabManager F) (pos : ℕ)
      → visit tabs pos ≡ (next, none)
      → focus_back_from tabs (suc pos) ≡ focus_back_from next pos
  unfolding back_after
  back_dead tabs next pos e = focus_back_from-suc tabs pos ∙ ap (back_after pos) e

  back_live :
      (tabs next : TabManager F) (pos : ℕ) (id : Uuid)
      → visit tabs pos ≡ (next, some id)
      → focus_back_from tabs (suc pos) ≡ (next, some id)
  unfolding back_after
  back_live tabs next pos id e = focus_back_from-suc tabs pos ∙ ap (back_after pos) e

  -- What `focus_back` promises of its result, from position `pos`.
  pub record WentBack (tabs : TabManager F) (pos : ℕ) (after : TabManager F × Option Uuid)
      : Type 0 where
    landed :
        (id : Uuid)
        → after.1 ≡ some id
        → (selected_id after.0 ≡ some id)
          × (get_elem? tabs.focus_history after.0.focus_pos ≡ some id)
          × (after.0.focus_pos < pos)
          × ((q : ℕ) → after.0.focus_pos < q → q < pos → IsDead tabs q)
    stayed :
        after.1 ≡ none
        → (after.0.selected_index ≡ tabs.selected_index)
          × (after.0.workspaces ≡ tabs.workspaces)
          × ((q : ℕ) → q < pos → IsDead tabs q)

  focus_back_from-WentBack :
      (tabs : TabManager F) (pos : ℕ) → WentBack tabs pos (focus_back_from tabs pos)
  focus_back_from-WentBack tabs zero =
      unfold focus_back_from in
      record { landed = λ id h. cc; stayed = λ h. (refl, refl, λ q lt. absurd (omega arith)) }
  focus_back_from-WentBack tabs (suc pos) = elim (visit_cases tabs pos) [
    | inl (e, dead) ↦
        let moved : TabManager F = record tabs { focus_pos = pos } in
        let ih : WentBack moved pos (focus_back_from moved pos) =
          focus_back_from-WentBack moved pos in
        let here_or_below : (q : ℕ) → q < suc pos → (q ≡ pos) ⊎ (q < pos) = λ q lt. omega arith in
        rw (back_dead tabs moved pos e) (record {
          landed = λ id h.
              let l = ih.landed id h in
              (
                l.0,
                l.1,
                omega (arith, l.2),
                λ q above lt. elim (here_or_below q lt) [
                  | inl same ↦ rw same dead
                  | inr below ↦ l.3 q above below
                ],
              );
          stayed = λ h.
              let l = ih.stayed h in
              (
                l.0,
                l.1,
                λ q lt. elim (here_or_below q lt) [
                  | inl same ↦ rw same dead
                  | inr below ↦ l.2 q below
                ],
              );
        })
    | inr (id, at_pos, e, found) ↦
        let moved : TabManager F = record tabs { focus_pos = pos } in
        let next : TabManager F = (select_by_id moved id).0 in
        let kept_pos : next.focus_pos ≡ pos = (select_by_id-focus_pos moved id).0 in
        rw (back_live tabs next pos id e) (record {
          landed = λ other h.
              let same : id ≡ other = cc in
              (
                (select_by_id_lem moved id).1 found ∙ ap some same,
                rw kept_pos (at_pos ∙ ap some same),
                omega arith,
                λ q above lt. absurd (omega arith),
              );
          stayed = λ h. cc;
        })
  ]

  -- Where `focus_back` returns an identifier, the selected workspace has it, it is the nearest
  -- earlier entry of the focus history that a workspace has, and the position is on it; where it
  -- returns nothing, no earlier entry is that of a workspace, and the selection and the workspaces
  -- are as they were.
  pub focus_back-WentBack : (tabs : TabManager F) → WentBack tabs tabs.focus_pos (focus_back tabs)
  unfolding focus_back
  focus_back-WentBack tabs = focus_back_from-WentBack tabs tabs.focus_pos
