-- ===== src/Goal/Drive.antt =====
-- The driver of goal runs (jmux/src/goal/mod.rs): `drive_one`, `on_iteration_file` and `tick`. That a
-- run's agent is spawned where it has none (`ensure_agent_spawned`) is part of what the next tick
-- meets outside, and so is what `scheduler_tick` does to the graphs.
use jmux.Base.{
  ℕ, ◌+◌, ◌-◌, ◌*◌, ◌==◌, ltb, leb, ◌&&◌, ◌||◌, Bool, true, false, not, Option, none, some, List,
  [], ◌∷◌, map, if◌then◌else◌, retain, Uuid,
}
use jmux.Base.Map
use jmux.Base.Text.{codes, text_eq}
use jmux.Claude.Chars.{Chars}
use jmux.Claude.Classify.{ClaudeState, waiting, working, needs_input, classify}
use jmux.Claude.Menu.{has_selection_menu}
use jmux.Goal.{
  GoalStatus, in_progress, finished_goal, needs_attention, blocked_goal, is_terminal, GoalRun,
  GoalSettings,
}
use jmux.Goal.Outcome.{IterationOutcome}
use jmux.Goal.Messages.{
  iteration_cap, done_message, working_message, blocked_message, unrecognised, unrecognised_message,
  reported_blocked, no_status_message, time_message, spawn_detail, spawn_message, nudge_text,
  exited_message, stalled, stalled_message, menu_message,
}
use jmux.Goal.Registry.{
  Driver, Outside, set_run, notify, type_into, escalate, state_detection_is_claude, report_of,
  Advance, advanced, advance_iteration,
}

abbrev pub finish_run : GoalRun → GoalRun
finish_run run = record run { status = finished_goal }

abbrev pub after_advance : Outside → GoalRun → Driver × Advance → Driver
after_advance o run (d, advanced next) =
    notify o run.workspace_id (codes "Goal working") (working_message run next) d
after_advance o run (d, refused) = d

unfoldable pub on_iteration_file : Outside → GoalRun → IterationOutcome → Driver → Driver
on_iteration_file o run outcome d =
    if text_eq outcome.status (codes "done")
    then notify o run.workspace_id (codes "Goal finished") (done_message run)
        (set_run run.workspace_id finish_run d)
    else if text_eq outcome.status (codes "blocked") && ltb run.iteration (iteration_cap run)
    then after_advance o run (advance_iteration o run.workspace_id (reported_blocked run) d)
    else if text_eq outcome.status (codes "blocked")
    then escalate o run.workspace_id (blocked_goal (codes "the agent could not finish"))
        (blocked_message run) d
    else escalate o run.workspace_id (needs_attention (unrecognised outcome.status))
        (unrecognised_message run outcome.status) d

unfoldable pub is_out_of_time : Outside → GoalRun → Bool
is_out_of_time o run =
    ltb 0 run.wall_clock_minutes && ltb (run.wall_clock_minutes * 60) (o.now - run.started_epoch)

abbrev count_no_text : ℕ → GoalRun → GoalRun
count_no_text ticks run = record run { no_text_ticks = ticks }

-- No terminal to read.
unfoldable pub on_no_text : Outside → Uuid → GoalRun → Driver → Driver
on_no_text o ws_id run d =
    let d' = set_run ws_id (count_no_text (run.no_text_ticks + 1)) d in
    let detail = spawn_detail (o.is_live run.panel_id) in
    if run.no_text_ticks + 1 == 30
    then escalate o ws_id (needs_attention detail) (spawn_message run detail) d'
    else d'

abbrev pub resumed : GoalStatus → GoalStatus
resumed (needs_attention d) = in_progress
resumed s = s

abbrev pub found_text : GoalRun → GoalRun
found_text run = record run { no_text_ticks = 0; status = resumed run.status }

abbrev pub is_busy : Option ClaudeState → Bool
is_busy (some working) = true
is_busy (some waiting) = true
is_busy (some needs_input) = false
is_busy none = false

abbrev pub found_busy : GoalRun → GoalRun
found_busy run = record run { idle_ticks = 0; status = resumed run.status }

abbrev pub count_idle : ℕ → GoalRun → GoalRun
count_idle idle run = record run { idle_ticks = idle }

abbrev pub nudged : GoalRun → GoalRun
nudged run = record run { nudges_sent = run.nudges_sent + 1; idle_ticks = 0 }

-- The agent is idle: it is counted towards a reminder.
unfoldable pub on_idle : Outside → GoalSettings → Uuid → GoalRun → Driver → Driver
on_idle o settings ws_id run d =
    if ltb (run.idle_ticks + 1) settings.idle_ticks_before_nudge
    then set_run ws_id (count_idle (run.idle_ticks + 1)) d
    else if not (o.is_live run.panel_id)
    then escalate o ws_id (blocked_goal (codes "the agent exited")) (exited_message run) d
    else if leb settings.nudge_budget run.nudges_sent
    then escalate o ws_id (needs_attention (stalled run)) (stalled_message run) d
    else if o.is_sent run.panel_id
    then set_run ws_id nudged (type_into run.panel_id nudge_text d)
    else d

unfoldable pub on_text : Outside → GoalSettings → Uuid → GoalRun → Chars → Driver → Driver
on_text o settings ws_id run text d =
    if has_selection_menu text
    then escalate o ws_id (needs_attention (codes "waiting on a prompt")) (menu_message run) d
    else if is_busy (classify o.is_alphanumeric text (o.title run.panel_id))
    then set_run ws_id found_busy d
    else on_idle o settings ws_id run d

-- Whether there is a text, and what the run then becomes.
unfoldable pub on_screen : Outside → GoalSettings → Uuid → GoalRun → Option Chars → Driver → Driver
on_screen o settings ws_id run none d = on_no_text o ws_id run d
on_screen o settings ws_id run (some text) d =
    on_text o settings ws_id run text
      (if run.no_text_ticks == 0 then d else set_run ws_id found_text d)

-- There is no file of the iteration.
unfoldable pub watch : Outside → GoalSettings → Uuid → GoalRun → Driver → Driver
watch o settings ws_id run d =
    if o.is_hibernated run.panel_id
    then d
    else if is_out_of_time o run
    then escalate o ws_id (blocked_goal (codes "ran out of time")) (time_message run) d
    else if not (state_detection_is_claude run.runner)
    then d
    else on_screen o settings ws_id run (o.screen_text run.panel_id) d

unfoldable pub on_report :
    Outside → GoalSettings → Uuid → GoalRun → Option (Option IterationOutcome) → Driver → Driver
on_report o settings ws_id run none d = watch o settings ws_id run d
on_report o settings ws_id run (some none) d =
    escalate o ws_id (needs_attention (codes "iteration report has no status line"))
      (no_status_message run) d
on_report o settings ws_id run (some (some outcome)) d = on_iteration_file o run outcome d

abbrev drive_run : Outside → GoalSettings → Uuid → Driver → Option GoalRun → Driver
drive_run o settings ws_id d none = d
drive_run o settings ws_id d (some run) =
    if not (o.has_workspace ws_id)
    then record d { goals = Map.remove d.goals ws_id }
    else on_report o settings ws_id run (report_of o run) d

unfoldable pub drive_one : Outside → GoalSettings → Uuid → Driver → Driver
drive_one o settings ws_id d = drive_run o settings ws_id d (Map.get d.goals ws_id)

-- Passes over one run, one after another.
unfoldable pub drive_passes : GoalSettings → Uuid → List Outside → Driver → Driver
drive_passes settings ws_id [] d = d
drive_passes settings ws_id (o ∷ os) d =
    drive_passes settings ws_id os (drive_one o settings ws_id d)

abbrev pub is_kept : Outside → Uuid × GoalRun → Bool
is_kept o (ws_id, run) = not (is_terminal run.status) || o.has_workspace ws_id

abbrev pub is_driven : Uuid × GoalRun → Bool
is_driven (ws_id, run) = not (is_terminal run.status)

-- The loop over the identifiers; each run meets its own moment.
unfoldable pub drive_all : (Uuid → Outside) → GoalSettings → List Uuid → Driver → Driver
drive_all o settings [] d = d
drive_all o settings (ws_id ∷ goal_ids) d =
    drive_all o settings goal_ids (drive_one (o ws_id) settings ws_id d)

abbrev pub purged : Outside → Driver → Driver
purged o d = record d { goals = retain (is_kept o) d.goals }

-- `tick`, behind the tick of the graphs.
unfoldable pub tick : Outside → (Uuid → Outside) → GoalSettings → Driver → Driver
tick start o settings d =
    let d' = purged start d in drive_all o settings (map (λ e. e.0) (retain is_driven d'.goals)) d'
