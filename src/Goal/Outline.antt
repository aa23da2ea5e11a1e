-- ===== src/Goal/Outline.antt =====
-- What the steps of the driver (jmux/src/goal/mod.rs) come to, where it does not matter which ticks they
-- count.
use jmux.Base.{ℕ, ◌+◌, ◌==◌, ◌≡◌, ◌<◌, refl, arith, true, false, some, inl, inr, Bool-cases, Uuid}
use jmux.Base.Map
use jmux.Base.Text.{Text, codes, text_eq}
use jmux.Claude.Chars.{Chars}
use jmux.Goal.{
  GoalStatus, in_progress, finished_goal, needs_attention, blocked_goal, is_terminal, GoalRun,
  GoalSettings,
}
use jmux.Goal.Outcome.{IterationOutcome}
use jmux.Goal.Registry.{
  Driver, Outside, set_run, type_into, escalate, report_of, next_prompt, next_iteration, notify,
}
use jmux.Goal.Messages.{iteration_cap, reported_blocked, nudge_text}
use jmux.Goal.Drive.{nudged, finish_run, drive_one}
use jmux.Goal.Conditions.{calm, seen, is_open, IsQuiet, HasIteration}
use jmux.Goal.Steps.{
  Waits, frozen, unwatched, unreadable_yet, at_work, counted, unsent, unprompted, Alarms, no_status,
  gives_up, unknown_status, out_of_time, unreadable, prompted, exits, stalls, Drives, waits, alarms,
}
use jmux.Goal.Drives.{drive_one-Drives}

-- A change of a run that counts ticks, or that finds the agent at work again.
pub record IsCount (g : GoalRun → GoalRun) : Type 0 where
  pub same_workspace : (run : GoalRun) → (g run).workspace_id ≡ run.workspace_id
  same_panel : (run : GoalRun) → (g run).panel_id ≡ run.panel_id
  pub same_iteration : (run : GoalRun) → (g run).iteration ≡ run.iteration
  pub same_cap : (run : GoalRun) → (g run).max_iterations ≡ run.max_iterations
  pub same_reminders : (run : GoalRun) → (g run).nudges_sent ≡ run.nudges_sent
  pub same_end : (run : GoalRun) → is_terminal (g run).status ≡ is_terminal run.status

-- Some such changes of the run of a workspace.
pub data Counts (ws_id : Uuid) (d : Driver) : Driver → Type 0 where
  same : Counts ws_id d d
  more :
      {d1 : Driver}
      → Counts ws_id d d1
      → (g : GoalRun → GoalRun) → IsCount g
      → Counts ws_id d (set_run ws_id g d1)

-- What the steps come to: which tick counters they change is left out.
pub data Outlines (o : Outside) (settings : GoalSettings) (ws_id : Uuid) (run : GoalRun)
    (d : Driver) (d' : Driver) : Type 0 where
  counts : Counts ws_id d d' → Outlines o settings ws_id run d d'
  drops :
      o.has_workspace ws_id ≡ false
      → d' ≡ record d { goals = Map.remove d.goals ws_id }
      → Outlines o settings ws_id run d d'
  finishes :
      (outcome : IterationOutcome) (title body : Text)
      → report_of o run ≡ some (some outcome)
      → text_eq outcome.status (codes "done") ≡ true
      → d' ≡ notify o ws_id title body (set_run ws_id finish_run d)
      → Outlines o settings ws_id run d d'
  iterates :
      (outcome : IterationOutcome) (title body : Text)
      → report_of o run ≡ some (some outcome)
      → text_eq outcome.status (codes "blocked") ≡ true
      → run.iteration < iteration_cap run
      → is_open o run ≡ true
      → d'
        ≡ notify o ws_id title body (
            set_run ws_id
              (next_iteration (run.iteration + 1))
              (type_into run.panel_id (next_prompt (reported_blocked run) run) d))
      → Outlines o settings ws_id run d d'
  escalates :
      {d1 : Driver} (status : GoalStatus) (message : Text)
      → Counts ws_id d d1
      → d' ≡ escalate o ws_id status message d1
      → Outlines o settings ws_id run d d'
  reminds :
      {d1 : Driver} (text : Chars)
      → Counts ws_id d d1
      → IsQuiet o settings run text
      → o.is_live run.panel_id ≡ true
      → run.nudges_sent < settings.nudge_budget
      → d' ≡ set_run ws_id nudged (type_into run.panel_id nudge_text d1)
      → Outlines o settings ws_id run d d'

calm-end : (s : GoalStatus) → is_terminal (calm s) ≡ is_terminal s
calm-end in_progress = refl
calm-end finished_goal = refl
calm-end (needs_attention d) = refl
calm-end (blocked_goal d) = refl

readable-IsCount : IsCount (λ r. record r { no_text_ticks = 0; status = calm r.status })
readable-IsCount = record {
  same_workspace = λ run. refl;
  same_panel = λ run. refl;
  same_iteration = λ run. refl;
  same_cap = λ run. refl;
  same_reminders = λ run. refl;
  same_end = λ run. calm-end run.status;
}

working-IsCount : IsCount (λ r. record r { idle_ticks = 0; status = calm r.status })
working-IsCount = record {
  same_workspace = λ run. refl;
  same_panel = λ run. refl;
  same_iteration = λ run. refl;
  same_cap = λ run. refl;
  same_reminders = λ run. refl;
  same_end = λ run. calm-end run.status;
}

unread-IsCount : (ticks : ℕ) → IsCount (λ r. record r { no_text_ticks = ticks })
unread-IsCount ticks = record {
  same_workspace = λ run. refl;
  same_panel = λ run. refl;
  same_iteration = λ run. refl;
  same_cap = λ run. refl;
  same_reminders = λ run. refl;
  same_end = λ run. refl;
}

idle-IsCount : (ticks : ℕ) → IsCount (λ r. record r { idle_ticks = ticks })
idle-IsCount ticks = record {
  same_workspace = λ run. refl;
  same_panel = λ run. refl;
  same_iteration = λ run. refl;
  same_cap = λ run. refl;
  same_reminders = λ run. refl;
  same_end = λ run. refl;
}

seen-Counts : (ws_id : Uuid) (run : GoalRun) (d : Driver) → Counts ws_id d (seen ws_id run d)
seen-Counts ws_id run d = elim (Bool-cases (run.no_text_ticks == 0)) [
  | inl e ↦ rw e same
  | inr e ↦ rw e (more same _ readable-IsCount)
]

module _ {o : Outside} {settings : GoalSettings} {ws_id : Uuid} {run : GoalRun} {d : Driver} where
  Waits-Counts : {d' : Driver} → Waits o settings ws_id run d d' → Counts ws_id d d'
  Waits-Counts (frozen unreported iced e) = rw e same
  Waits-Counts (unwatched unreported awake early custom e) = rw e same
  Waits-Counts (unreadable_yet watched unseen few e) = rw e (more same _ (unread-IsCount _))
  Waits-Counts (at_work text read works e) = rw e (more (seen-Counts ws_id run d) _ working-IsCount)
  Waits-Counts (counted text read rests few e) =
      rw e (more (seen-Counts ws_id run d) _ (idle-IsCount _))
  Waits-Counts (unsent text quiet live left lost e) = rw e (seen-Counts ws_id run d)
  Waits-Counts (unprompted outcome report says left shut e) = rw e same

  Alarms-Counts :
      {status : GoalStatus} {message : Text} {d1 : Driver}
      → Alarms o settings ws_id run d status message d1
      → Counts ws_id d d1
  Alarms-Counts (no_status report) = same
  Alarms-Counts (gives_up outcome report says over begun) = same
  Alarms-Counts (unknown_status outcome report other unknown) = same
  Alarms-Counts (out_of_time unreported awake late) = same
  Alarms-Counts (unreadable watched unseen last) = more same _ (unread-IsCount _)
  Alarms-Counts (prompted text watched shown menu) = seen-Counts ws_id run d
  Alarms-Counts (exits text quiet gone) = seen-Counts ws_id run d
  Alarms-Counts (stalls text quiet live spent) = seen-Counts ws_id run d

iteration_below : (run : GoalRun) → HasIteration run → run.iteration < iteration_cap run
iteration_below run (inl h) = ground arith
iteration_below run (inr h) = ground arith

Drives-Outlines :
    (o : Outside) (settings : GoalSettings) (ws_id : Uuid) (run : GoalRun) (d d' : Driver)
    → Drives o settings ws_id run d d'
    → Outlines o settings ws_id run d d'
unfolding notify
Drives-Outlines o settings ws_id run d d' (Drives.drops gone e) = drops gone e
Drives-Outlines o settings ws_id run d d' (waits here w) = counts (Waits-Counts w)
Drives-Outlines o settings ws_id run d d' (Drives.finishes outcome here report says e) =
    finishes outcome _ _ report says e
Drives-Outlines o settings ws_id run d d'
      (Drives.iterates outcome here report says left open_pane sent e) =
    iterates outcome _ _ report says (iteration_below run left) open_pane e
Drives-Outlines o settings ws_id run d d' (alarms status message here alarm e spelt) =
    escalates status message (Alarms-Counts alarm) e
Drives-Outlines o settings ws_id run d d' (Drives.reminds text here quiet live left sent e) =
    reminds text (seen-Counts ws_id run d) quiet live left e

-- What a pass comes to.
pub drive_one-Outlines :
    (o : Outside) (settings : GoalSettings) (ws_id : Uuid) (run : GoalRun) (d : Driver)
    → run.workspace_id ≡ ws_id
    → Map.get d.goals ws_id ≡ some run
    → Outlines o settings ws_id run d (drive_one o settings ws_id d)
drive_one-Outlines o settings ws_id run d key found =
    Drives-Outlines o settings ws_id run d (drive_one o settings ws_id d)
      (drive_one-Drives o settings ws_id run d key found)
