-- ===== src/Goal/Drives.antt =====
-- One pass of the driver (jmux/src/goal/mod.rs) takes one of the steps of Goal/Steps.
use mathlib.Core.Path.{subst}
use jmux.Base.{
  ◌+◌, ◌≡◌, ap, refl, sym, arith, ltb, leb, ◌&&◌, true, not, Option, none, some, inl, inr,
  Bool-cases, Uuid, ◌==◌, if◌then◌else◌,
}
use jmux.Base.Map
use jmux.Base.Text.{Text, codes, text_eq}
use jmux.Claude.Chars.{Chars}
use jmux.Claude.Classify.{classify}
use jmux.Claude.Menu.{has_selection_menu}
use jmux.Goal.{GoalStatus, GoalRun, GoalSettings}
use jmux.Goal.Outcome.{IterationOutcome}
use jmux.Goal.Registry.{
  Driver, Outside, set_run, escalate, report_of, state_detection_is_claude, notify,
  advance_iteration,
}
use jmux.Goal.Messages.{iteration_cap, reported_blocked}
use jmux.Goal.Drive.{
  on_iteration_file, after_advance, on_no_text, found_text, found_busy, is_busy, on_idle, on_text,
  on_screen, watch, on_report, drive_one, is_out_of_time,
}
use jmux.Goal.Escalation.{written-ext, escalate-IsEscalated}
use jmux.Goal.Conditions.{seen, Rests, HasIteration, IsWatched, IsRead, IsQuiet}
use jmux.Goal.Steps.{
  frozen, unwatched, unreadable_yet, at_work, counted, unsent, unprompted, Alarms, no_status,
  gives_up, unknown_status, out_of_time, unreadable, prompted, exits, stalls, Drives, drops, waits,
  finishes, iterates, alarms, reminds,
}
use jmux.Goal.Decisions.{
  resumed-calm, is_busy-Works, is_busy-Rests, late, early, iteration_left, get-written, get-seen,
}

module _ (o : Outside) (settings : GoalSettings) (ws_id : Uuid) (run : GoalRun) {d : Driver}
    (here : o.has_workspace ws_id ≡ true) (found : Map.get d.goals ws_id ≡ some run) where
  alarm-Drives :
      {d1 : Driver} {status : GoalStatus} {message : Text}
      → Alarms o settings ws_id run d status message d1
      → (r : GoalRun) × (Map.get d1.goals ws_id ≡ some r)
      → Drives o settings ws_id run d (escalate o ws_id status message d1)
  alarm-Drives {d1} {status} {message} alarm (r, at) =
      alarms status message here alarm refl (escalate-IsEscalated o ws_id status message d1 r at)

  on_idle-Drives :
      (text : Chars)
      → IsRead o run text
      → Rests (classify o.is_alphanumeric text (o.title run.panel_id))
      → Drives o settings ws_id run d (on_idle o settings ws_id run (seen ws_id run d))
  unfolding on_idle
  on_idle-Drives text read rests =
      elim (Bool-cases (ltb (run.idle_ticks + 1) settings.idle_ticks_before_nudge)) [
        | inl e ↦ rw e (waits here (counted text read rests (ground arith) refl))
        | inr e ↦
            let idle : IsQuiet o settings run text = record {
              read = read;
              quiet = rests;
              due = ground arith;
            } in
            rw e (elim (Bool-cases (o.is_live run.panel_id)) [
              | inl live ↦ rw live (elim (Bool-cases (leb settings.nudge_budget run.nudges_sent)) [
                | inl spent ↦ rw spent (
                    alarm-Drives (stalls text idle live (ground arith))
                      (get-seen ws_id run d found))
                | inr left ↦ rw left (elim (Bool-cases (o.is_sent run.panel_id)) [
                  | inl sent ↦ rw sent (reminds text here idle live (ground arith) sent refl)
                  | inr lost ↦ rw lost (waits here (unsent text idle live (ground arith) lost refl))
                ])
              ])
              | inr gone ↦
                  rw gone (alarm-Drives (exits text idle gone) (get-seen ws_id run d found))
            ])
      ]

  on_text-Drives :
      (text : Chars)
      → IsWatched o run
      → o.screen_text run.panel_id ≡ some text
      → Drives o settings ws_id run d (on_text o settings ws_id run text (seen ws_id run d))
  unfolding on_text
  on_text-Drives text watched shown = elim (Bool-cases (has_selection_menu text)) [
    | inl menu ↦
        rw menu (alarm-Drives (prompted text watched shown menu) (get-seen ws_id run d found))
    | inr free ↦
        let read : IsRead o run text = record { watched = watched; shown = shown; free = free } in
        rw free
          (elim (Bool-cases (is_busy (classify o.is_alphanumeric text (o.title run.panel_id)))) [
            | inl busy ↦ rw busy (
                waits here (
                  at_work text read (is_busy-Works _ busy) (
                    written-ext ws_id found_busy _ (seen ws_id run d) (λ r.
                      ap (λ s. record r { idle_ticks = 0; status = s }) (resumed-calm r.status)))))
            | inr quiet ↦ rw quiet (on_idle-Drives text read (is_busy-Rests _ quiet))
          ])
  ]

  on_no_text-Drives :
      IsWatched o run
      → o.screen_text run.panel_id ≡ none
      → Drives o settings ws_id run d (on_no_text o ws_id run d)
  unfolding on_no_text
  on_no_text-Drives watched unseen = elim (Bool-cases (run.no_text_ticks + 1 == 30)) [
    | inl e ↦
        rw e (alarm-Drives (unreadable watched unseen (ground arith)) (get-written ws_id _ d found))
    | inr e ↦ rw e (waits here (unreadable_yet watched unseen e refl))
  ]

  on_screen-Drives :
      (screen : Option Chars)
      → IsWatched o run
      → o.screen_text run.panel_id ≡ screen
      → Drives o settings ws_id run d (on_screen o settings ws_id run screen d)
  unfolding on_screen
  on_screen-Drives none watched shown = on_no_text-Drives watched shown
  on_screen-Drives (some text) watched shown =
      let known : (if run.no_text_ticks == 0 then d else set_run ws_id found_text d)
          ≡ seen ws_id run d =
        ap (λ x. if run.no_text_ticks == 0 then d else x)
          (written-ext ws_id found_text _ d
            (λ r. ap (λ s. record r { no_text_ticks = 0; status = s }) (resumed-calm r.status))) in
      subst (λ x. Drives o settings ws_id run d (on_text o settings ws_id run text x)) (sym known)
        (on_text-Drives text watched shown)

  watch-Drives :
      report_of o run ≡ none → Drives o settings ws_id run d (watch o settings ws_id run d)
  unfolding watch
  watch-Drives unreported = elim (Bool-cases (o.is_hibernated run.panel_id)) [
    | inl iced ↦ rw iced (waits here (frozen unreported iced refl))
    | inr awake ↦ rw awake (elim (Bool-cases (is_out_of_time o run)) [
      | inl over ↦
          rw over (alarm-Drives (out_of_time unreported awake (late o run over)) (run, found))
      | inr left ↦ rw left (elim (Bool-cases (state_detection_is_claude run.runner)) [
        | inl claude ↦ rw claude (
            on_screen-Drives (o.screen_text run.panel_id)
              (record {
                unreported = unreported;
                awake = awake;
                in_time = early o run left;
                claude = claude;
              })
              refl)
        | inr custom ↦
            rw custom (waits here (unwatched unreported awake (early o run left) custom refl))
      ])
    ])
  ]

module _ (o : Outside) (settings : GoalSettings) (run : GoalRun) {d : Driver}
    (here : o.has_workspace run.workspace_id ≡ true)
    (found : Map.get d.goals run.workspace_id ≡ some run) where
  advance-Drives :
      (outcome : IterationOutcome)
      → report_of o run ≡ some (some outcome)
      → text_eq outcome.status (codes "blocked") ≡ true
      → HasIteration run
      → Drives o settings run.workspace_id run d
          (after_advance o run (advance_iteration o run.workspace_id (reported_blocked run) d))
  unfolding advance_iteration notify
  advance-Drives outcome report says left =
      rw (found, report)
        (elim (Bool-cases (state_detection_is_claude run.runner && not (o.is_live run.panel_id))) [
          | inl shut ↦
              rw shut (waits here (unprompted outcome report says left (rw shut refl) refl))
          | inr unshut ↦ rw unshut (elim (Bool-cases (o.is_sent run.panel_id)) [
            | inl sent ↦ rw sent (iterates outcome here report says left (ap not unshut) sent refl)
            | inr lost ↦
                rw lost
                  (waits here (unprompted outcome report says left (rw (unshut, lost) refl) refl))
          ])
        ])

  on_iteration_file-Drives :
      (outcome : IterationOutcome)
      → report_of o run ≡ some (some outcome)
      → Drives o settings run.workspace_id run d (on_iteration_file o run outcome d)
  unfolding on_iteration_file notify
  on_iteration_file-Drives outcome report =
      elim (Bool-cases (text_eq outcome.status (codes "done"))) [
        | inl done ↦ rw done (finishes outcome here report done refl)
        | inr other ↦ rw other (elim (Bool-cases (text_eq outcome.status (codes "blocked"))) [
          | inl says ↦ rw says (elim (Bool-cases (ltb run.iteration (iteration_cap run))) [
            | inl left ↦ rw left (advance-Drives outcome report says (iteration_left run left))
            | inr last ↦ rw last (
                alarm-Drives o settings run.workspace_id run here found
                  (gives_up outcome report says (ground arith) (ground arith)) (run, found))
          ])
          | inr unknown ↦ rw unknown (
              alarm-Drives o settings run.workspace_id run here found
                (unknown_status outcome report other unknown) (run, found))
        ])
      ]

  on_report-Drives :
      (report : Option (Option IterationOutcome))
      → report_of o run ≡ report
      → Drives o settings run.workspace_id run d
          (on_report o settings run.workspace_id run report d)
  unfolding on_report
  on_report-Drives none e = watch-Drives o settings run.workspace_id run here found e
  on_report-Drives (some none) e =
      alarm-Drives o settings run.workspace_id run here found (no_status e) (run, found)
  on_report-Drives (some (some outcome)) e = on_iteration_file-Drives outcome e

drive_registered-Drives :
    (o : Outside) (settings : GoalSettings) (run : GoalRun) (d : Driver)
    → Map.get d.goals run.workspace_id ≡ some run
    → Drives o settings run.workspace_id run d (drive_one o settings run.workspace_id d)
unfolding drive_one
drive_registered-Drives o settings run d found =
    rw found (elim (Bool-cases (o.has_workspace run.workspace_id)) [
      | inl here ↦ rw here (on_report-Drives o settings run here found (report_of o run) refl)
      | inr gone ↦ rw gone (drops gone refl)
    ])

-- One pass of the driver over a run that is registered under its workspace is one of the steps,
-- each with its exact conditions and its exact change of the run, the notifications and what was
-- typed: it drops the run, if its workspace is gone; waits, in one of seven ways, of which three
-- count ticks or find the agent at work and the others write nothing but that the screen was found;
-- finishes the run, if the report says `done`; starts the next iteration, if the report says
-- `blocked`, an iteration is left and a live agent takes input; escalates to the status and message
-- that one of eight causes calls for, and tells it unless the last escalation is less than a minute
-- ago and the run does not end by it; or types a reminder, if there is no report, the agent is
-- live, not frozen and idle for the ticks of the settings, and a reminder is left.
pub drive_one-Drives :
    (o : Outside) (settings : GoalSettings) (ws_id : Uuid) (run : GoalRun) (d : Driver)
    → run.workspace_id ≡ ws_id
    → Map.get d.goals ws_id ≡ some run
    → Drives o settings ws_id run d (drive_one o settings ws_id d)
drive_one-Drives o settings ws_id run d key =
    subst (λ w. Map.get d.goals w ≡ some run → Drives o settings w run d (drive_one o settings w d))
      (key) (drive_registered-Drives o settings run d)
