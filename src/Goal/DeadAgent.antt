-- ===== src/Goal/DeadAgent.antt =====
-- The driver (jmux/src/goal/mod.rs) on a run whose agent is gone when it reports to be blocked.
use jmux.Base.{◌≡◌, ◌<◌, refl, arith, ltb, ◌∙◌, ap, true, false, some, List, [], ◌∷◌}
use jmux.Base.Map
use jmux.Base.Text.{Text, codes, text_eq, text_eq→eq}
use jmux.Goal.{GoalRun, GoalSettings}
use jmux.Goal.Outcome.{IterationOutcome}
use jmux.Goal.Registry.{Driver, Outside, report_of, state_detection_is_claude, advance_iteration}
use jmux.Goal.Messages.{iteration_cap}
use jmux.Goal.Drive.{on_iteration_file, on_report, drive_one, drive_passes}

not_done : (t : Text) → t ≡ codes "blocked" → text_eq t (codes "done") ≡ false
not_done t e = rw e refl

-- A moment at which the report says that the run is blocked, and no Claude runs in the panel.
pub record IsDead (run : GoalRun) (o : Outside) : Type 0 where
  pub here : o.has_workspace run.workspace_id ≡ true
  pub outcome : IterationOutcome
  pub report : report_of o run ≡ some (some outcome)
  pub says : text_eq outcome.status (codes "blocked") ≡ true
  pub gone : o.is_live run.panel_id ≡ false

abbrev AllDead : GoalRun → List Outside → Type 0
AllDead run [] = Unit {0}
AllDead run (o ∷ os) = IsDead run o × AllDead run os

module _ (settings : GoalSettings) (run : GoalRun) (d : Driver) where
  dead_pass :
      (o : Outside)
      → Map.get d.goals run.workspace_id ≡ some run
      → run.iteration < iteration_cap run
      → state_detection_is_claude run.runner ≡ true
      → IsDead run o
      → drive_one o settings run.workspace_id d ≡ d
  unfolding drive_one on_report on_iteration_file advance_iteration
  dead_pass o found below claude dead =
      let other : text_eq dead.outcome.status (codes "done") ≡ false =
        not_done dead.outcome.status (text_eq→eq dead.outcome.status (codes "blocked") dead.says) in
      let left : ltb run.iteration (iteration_cap run) ≡ true = ground arith in
      rw
        (
          found, dead.here, dead.report, other, dead.says, left, found, dead.report, claude,
          dead.gone,
        )
        refl

  -- If a Claude run with an iteration left has a report that says `blocked`, and its agent is gone,
  -- passes over it change nothing, however many there are and whatever the time.
  pub drive_passes-dead :
      (os : List Outside)
      → Map.get d.goals run.workspace_id ≡ some run
      → run.iteration < iteration_cap run
      → state_detection_is_claude run.runner ≡ true
      → AllDead run os
      → drive_passes settings run.workspace_id os d ≡ d
  unfolding drive_passes
  drive_passes-dead [] found below claude dead = refl
  drive_passes-dead (o ∷ os) found below claude dead =
      ap (drive_passes settings run.workspace_id os) (dead_pass o found below claude dead.0)
      ∙ drive_passes-dead os found below claude dead.1
