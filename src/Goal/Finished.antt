-- ===== src/Goal/Finished.antt =====
-- A report that says `done` (jmux/src/goal/mod.rs): what a tick of the driver makes of its run, and
-- that passes over other runs leave it alone.
use mathlib.Core.Path.{subst}
use jmux.Base.{
  ap, not, ℕ, ◌==◌, ◌≡◌, refl, sym, ◌∙◌, arith, true, false, some, List, [], ◌∷◌, map, inl, inr,
  Bool-cases, Option-cases, Uuid, retain, contains,
}
use jmux.Base.Map
use jmux.Base.Text.{codes, text_eq}
use jmux.Goal.{GoalRun, GoalSettings, is_terminal}
use jmux.Goal.Outcome.{IterationOutcome}
use jmux.Goal.Registry.{Driver, GoalRegistry, Outside, escalated, notify, report_of}
use jmux.Goal.Drive.{
  finish_run, nudged, on_iteration_file, on_report, drive_one, drive_all, is_driven, is_kept,
  purged, tick,
}
use jmux.Goal.Outline.{
  Counts, same, more, Outlines, counts, drops, finishes, iterates, escalates, reminds,
}
use jmux.Goal.Outline.{drive_one-Outlines}
use jmux.Goal.Paced.{ArePaced, escalate-goals, drive_absent, drive_one-ArePaced}

Counts-frame :
    {ws_id : Uuid} {d d' : Driver} (k : Uuid)
    → (ws_id == k) ≡ false
    → Counts ws_id d d'
    → Map.get d'.goals k ≡ Map.get d.goals k
Counts-frame k other same = refl
Counts-frame {ws_id} k other (more {d1} c g q) =
    Map.get-update_other d1.goals ws_id k g other ∙ Counts-frame k other c

-- A pass changes no other run.
Outlines-frame :
    (o : Outside) (settings : GoalSettings) (ws_id : Uuid) (run : GoalRun) (d d' : Driver)
    (k : Uuid)
    → (ws_id == k) ≡ false
    → Outlines o settings ws_id run d d'
    → Map.get d'.goals k ≡ Map.get d.goals k
unfolding notify
Outlines-frame o settings ws_id run d d' k other (counts c) = Counts-frame k other c
Outlines-frame o settings ws_id run d d' k other (drops gone e) =
    rw e (Map.get-remove_other d.goals ws_id k other)
Outlines-frame o settings ws_id run d d' k other (finishes outcome title body report says e) =
    rw e (Map.get-update_other d.goals ws_id k finish_run other)
Outlines-frame o settings ws_id run d d' k other
      (iterates outcome title body report says below open_pane e) =
    rw e (Map.get-update_other d.goals ws_id k _ other)
Outlines-frame o settings ws_id run d d' k other (escalates {d1} status message c e) =
    rw (e, escalate-goals o ws_id status message d1)
      (Map.get-update_other d1.goals ws_id k (escalated o.now status) other
        ∙ Counts-frame k other c)
Outlines-frame o settings ws_id run d d' k other (reminds {d1} text c quiet live left e) =
    rw e (Map.get-update_other d1.goals ws_id k nudged other ∙ Counts-frame k other c)

drive_one-frame :
    (first : Uuid → ℕ) (o : Outside) (settings : GoalSettings) (ws_id k : Uuid) (d : Driver)
    → ArePaced first settings d
    → (ws_id == k) ≡ false
    → Map.get (drive_one o settings ws_id d).goals k ≡ Map.get d.goals k
drive_one-frame first o settings ws_id k d p other = elim (Option-cases (Map.get d.goals ws_id)) [
  | inl absent ↦ rw (drive_absent first settings o ws_id d absent) refl
  | inr (run, found) ↦
      let q = Map.All-get _ d.goals ws_id p found in
      Outlines-frame o settings ws_id run d (drive_one o settings ws_id d) k other
        (drive_one-Outlines o settings ws_id run d q.key found)
]

module _ (first : Uuid → ℕ) (settings : GoalSettings) (o : Uuid → Outside) (run : GoalRun)
    (outcome : IterationOutcome) (here : (o run.workspace_id).has_workspace run.workspace_id ≡ true)
    (report : report_of (o run.workspace_id) run ≡ some (some outcome))
    (says : text_eq outcome.status (codes "done") ≡ true) where
  -- A pass over the run, also where an earlier pass finished it.
  drive_one-finished :
      (d : Driver)
      → Map.get d.goals run.workspace_id ≡ some run
      → Map.get (drive_one (o run.workspace_id) settings run.workspace_id d).goals run.workspace_id
        ≡ some (finish_run run)
  unfolding drive_one on_report on_iteration_file notify
  drive_one-finished d found =
      rw (found, here, report, says) (Map.get-update_self d.goals run.workspace_id finish_run found)

  drive_one-again :
      (d : Driver)
      → Map.get d.goals run.workspace_id ≡ some (finish_run run)
      → Map.get (drive_one (o run.workspace_id) settings run.workspace_id d).goals run.workspace_id
        ≡ some (finish_run run)
  unfolding drive_one on_report on_iteration_file notify report_of
  drive_one-again d found =
      rw (found, here, report, says) (Map.get-update_self d.goals run.workspace_id finish_run found)

  drive_all-kept :
      (goal_ids : List Uuid) (d : Driver)
      → ArePaced first settings d
      → Map.get d.goals run.workspace_id ≡ some (finish_run run)
      → Map.get (drive_all o settings goal_ids d).goals run.workspace_id ≡ some (finish_run run)
  unfolding drive_all
  drive_all-kept [] d p found = found
  drive_all-kept (id ∷ goal_ids) d p found =
      drive_all-kept goal_ids (drive_one (o id) settings id d)
        (drive_one-ArePaced first settings (o id) id d p)
        (elim (Bool-cases (id == run.workspace_id)) [
          | inl e ↦
              let same : run.workspace_id ≡ id = ground arith in
              subst
                (λ i.
                  Map.get (drive_one (o i) settings i d).goals run.workspace_id
                  ≡ some (finish_run run))
                (same) (drive_one-again d found)
          | inr other ↦ drive_one-frame first (o id) settings id run.workspace_id d p other ∙ found
        ])

  drive_all-finished :
      (goal_ids : List Uuid) (d : Driver)
      → ArePaced first settings d
      → Map.get d.goals run.workspace_id ≡ some run
      → contains goal_ids run.workspace_id ≡ true
      → Map.get (drive_all o settings goal_ids d).goals run.workspace_id ≡ some (finish_run run)
  unfolding drive_all
  drive_all-finished [] d p found listed = cc
  drive_all-finished (id ∷ goal_ids) d p found listed = elim (Bool-cases (id == run.workspace_id)) [
    | inl e ↦
        let same : run.workspace_id ≡ id = ground arith in
        drive_all-kept goal_ids (drive_one (o id) settings id d)
          (drive_one-ArePaced first settings (o id) id d p)
          (subst
            (λ i.
              Map.get (drive_one (o i) settings i d).goals run.workspace_id ≡ some (finish_run run))
            (same) (drive_one-finished d found))
    | inr other ↦
        drive_all-finished goal_ids (drive_one (o id) settings id d)
          (drive_one-ArePaced first settings (o id) id d p)
          (drive_one-frame first (o id) settings id run.workspace_id d p other ∙ found)
          (ground (arith, listed))
  ]

listed-driven :
    (goals : GoalRegistry) (k : Uuid) (run : GoalRun)
    → Map.get goals k ≡ some run
    → is_terminal run.status ≡ false
    → contains (map (λ e. e.0) (retain is_driven goals)) k ≡ true
listed-driven [] k run found live = cc
listed-driven ((j, r) ∷ goals) k run found live = elim (Bool-cases (j == k)) [
  | inl e ↦
      let same : r ≡ run = ground arith in
      let driven : not (is_terminal r.status) ≡ true =
        subst (λ x. not (is_terminal x.status) ≡ true) (sym same) (ap not live) in
      rw (driven, e) refl
  | inr e ↦ elim (Bool-cases (not (is_terminal r.status))) [
    | inl q ↦ rw (q, e) (listed-driven goals k run (ground arith) live)
    | inr q ↦ rw q (listed-driven goals k run (ground arith) live)
  ]
]

-- A tick finishes every run of the driver whose report says `done`.
pub tick-finished :
    (first : Uuid → ℕ) (settings : GoalSettings) (start : Outside) (o : Uuid → Outside) (d : Driver)
    (run : GoalRun) (outcome : IterationOutcome)
    → ArePaced first settings d
    → Map.get d.goals run.workspace_id ≡ some run
    → is_terminal run.status ≡ false
    → (o run.workspace_id).has_workspace run.workspace_id ≡ true
    → report_of (o run.workspace_id) run ≡ some (some outcome)
    → text_eq outcome.status (codes "done") ≡ true
    → Map.get (tick start o settings d).goals run.workspace_id ≡ some (finish_run run)
unfolding tick
tick-finished first settings start o d run outcome p found live here report says =
    let d' = purged start d in
    let kept : is_kept start (run.workspace_id, run) ≡ true = rw live refl in
    let found' : Map.get d'.goals run.workspace_id ≡ some run =
      Map.get-retain (is_kept start) d.goals run.workspace_id found kept in
    drive_all-finished first settings o run outcome here report says
      (map (λ e. e.0) (retain is_driven d'.goals)) d' (Map.All-retain _ (is_kept start) d.goals p)
      found' (listed-driven d'.goals run.workspace_id run found' live)
