-- ===== src/Goal/Steps.antt =====
-- What one pass of the driver (jmux/src/goal/mod.rs) may do to a run: steps with the conditions under
-- which they are taken, and what each of them changes, written out.
use jmux.Base.{
  ℕ, ◌+◌, ◌-◌, ◌==◌, ◌≡◌, ◌≤◌, ◌<◌, leb, ◌&&◌, ◌||◌, Bool, true, false, not, none, some,
  if◌then◌else◌, Uuid,
}
use jmux.Base.Map
use jmux.Base.Text.{Text, codes, text_eq}
use jmux.Claude.Chars.{Chars}
use jmux.Claude.Classify.{classify}
use jmux.Claude.Menu.{has_selection_menu}
use jmux.Goal.{
  GoalStatus, in_progress, finished_goal, needs_attention, blocked_goal, is_terminal, GoalRun,
  GoalSettings,
}
use jmux.Goal.Outcome.{IterationOutcome}
use jmux.Goal.Registry.{
  Driver, Outside, escalate, report_of, state_detection_is_claude, next_prompt,
}
use jmux.Goal.Messages.{
  done_message, working_message, blocked_message, unrecognised, unrecognised_message,
  reported_blocked, no_status_message, time_message, spawn_detail, spawn_message, nudge_text,
  exited_message, stalled, stalled_message, menu_message,
}
use jmux.Goal.Conditions.{
  written, told, typing, calm, seen, IsLate, InTime, Works, Rests, HasIteration, is_open, IsWatched,
  IsRead, IsQuiet,
}

-- A pass that only counts ticks, finds the agent at work, or has nothing to do.
pub data Waits (o : Outside) (settings : GoalSettings) (ws_id : Uuid) (run : GoalRun) (d : Driver)
    (d' : Driver) : Type 0 where
  frozen :
      report_of o run ≡ none
      → o.is_hibernated run.panel_id ≡ true
      → d' ≡ d
      → Waits o settings ws_id run d d'
  unwatched :
      report_of o run ≡ none
      → o.is_hibernated run.panel_id ≡ false
      → InTime o run
      → state_detection_is_claude run.runner ≡ false
      → d' ≡ d
      → Waits o settings ws_id run d d'
  unreadable_yet :
      IsWatched o run
      → o.screen_text run.panel_id ≡ none
      → (run.no_text_ticks + 1 == 30) ≡ false
      → d' ≡ written ws_id (λ r. record r { no_text_ticks = run.no_text_ticks + 1 }) d
      → Waits o settings ws_id run d d'
  at_work :
      (text : Chars)
      → IsRead o run text
      → Works (classify o.is_alphanumeric text (o.title run.panel_id))
      → d'
        ≡ written ws_id
            (λ r. record r { idle_ticks = 0; status = calm r.status })
            (seen ws_id run d)
      → Waits o settings ws_id run d d'
  counted :
      (text : Chars)
      → IsRead o run text
      → Rests (classify o.is_alphanumeric text (o.title run.panel_id))
      → run.idle_ticks + 1 < settings.idle_ticks_before_nudge
      → d' ≡ written ws_id (λ r. record r { idle_ticks = run.idle_ticks + 1 }) (seen ws_id run d)
      → Waits o settings ws_id run d d'
  unsent :
      (text : Chars)
      → IsQuiet o settings run text
      → o.is_live run.panel_id ≡ true
      → run.nudges_sent < settings.nudge_budget
      → o.is_sent run.panel_id ≡ false
      → d' ≡ seen ws_id run d
      → Waits o settings ws_id run d d'
  unprompted :
      (outcome : IterationOutcome)
      → report_of o run ≡ some (some outcome)
      → text_eq outcome.status (codes "blocked") ≡ true
      → HasIteration run
      → (is_open o run && o.is_sent run.panel_id) ≡ false
      → d' ≡ d
      → Waits o settings ws_id run d d'

-- The statuses that a run is escalated to, with the message, when, and in which state.
pub data Alarms (o : Outside) (settings : GoalSettings) (ws_id : Uuid) (run : GoalRun) (d : Driver)
    : GoalStatus → Text → Driver → Type 0 where
  no_status :
      report_of o run ≡ some none
      → Alarms o settings ws_id run d
          (needs_attention (codes "iteration report has no status line"))
          (no_status_message run)
          d
  gives_up :
      (outcome : IterationOutcome)
      → report_of o run ≡ some (some outcome)
      → text_eq outcome.status (codes "blocked") ≡ true
      → run.max_iterations ≤ run.iteration
      → 1 ≤ run.iteration
      → Alarms o settings ws_id run d
          (blocked_goal (codes "the agent could not finish"))
          (blocked_message run)
          d
  unknown_status :
      (outcome : IterationOutcome)
      → report_of o run ≡ some (some outcome)
      → text_eq outcome.status (codes "done") ≡ false
      → text_eq outcome.status (codes "blocked") ≡ false
      → Alarms o settings ws_id run d
          (needs_attention (unrecognised outcome.status))
          (unrecognised_message run outcome.status)
          d
  out_of_time :
      report_of o run ≡ none
      → o.is_hibernated run.panel_id ≡ false
      → IsLate o run
      → Alarms o settings ws_id run d (blocked_goal (codes "ran out of time")) (time_message run) d
  unreadable :
      IsWatched o run
      → o.screen_text run.panel_id ≡ none
      → run.no_text_ticks + 1 ≡ 30
      → Alarms o settings ws_id run d
          (needs_attention (spawn_detail (o.is_live run.panel_id)))
          (spawn_message run (spawn_detail (o.is_live run.panel_id)))
          (written ws_id (λ r. record r { no_text_ticks = run.no_text_ticks + 1 }) d)
  prompted :
      (text : Chars)
      → IsWatched o run
      → o.screen_text run.panel_id ≡ some text
      → has_selection_menu text ≡ true
      → Alarms o settings ws_id run d
          (needs_attention (codes "waiting on a prompt"))
          (menu_message run)
          (seen ws_id run d)
  exits :
      (text : Chars)
      → IsQuiet o settings run text
      → o.is_live run.panel_id ≡ false
      → Alarms o settings ws_id run d
          (blocked_goal (codes "the agent exited"))
          (exited_message run)
          (seen ws_id run d)
  stalls :
      (text : Chars)
      → IsQuiet o settings run text
      → o.is_live run.panel_id ≡ true
      → settings.nudge_budget ≤ run.nudges_sent
      → Alarms o settings ws_id run d
          (needs_attention (stalled run))
          (stalled_message run)
          (seen ws_id run d)

-- An escalation is told a minute after the last one, and always where it ends a run.
abbrev pub is_told : ℕ → GoalStatus → GoalRun → Bool
is_told now status r =
    leb 60 (now - r.last_escalation_epoch) || (is_terminal status && not (is_terminal r.status))

-- What an escalation does: the status, and the notification with its time.
pub record IsEscalated (o : Outside) (ws_id : Uuid) (status : GoalStatus) (message : Text)
    (d d' : Driver) : Type 0 where
  pub before : GoalRun
  pub found : Map.get d.goals ws_id ≡ some before
  pub after : d' ≡ (
      let d1 =
        written ws_id
          (λ r. record r {
            status = status;
            last_escalation_epoch =
                if is_told o.now status r then o.now else r.last_escalation_epoch;
          })
          d in
      if is_told o.now status before then told o ws_id (codes "Goal needs you") message d1 else d1)

-- The steps, on the run that the registry has for the workspace.
pub data Drives (o : Outside) (settings : GoalSettings) (ws_id : Uuid) (run : GoalRun) (d : Driver)
    (d' : Driver) : Type 0 where
  drops :
      o.has_workspace ws_id ≡ false
      → d' ≡ record d { goals = Map.remove d.goals ws_id }
      → Drives o settings ws_id run d d'
  waits :
      o.has_workspace ws_id ≡ true
      → Waits o settings ws_id run d d'
      → Drives o settings ws_id run d d'
  finishes :
      (outcome : IterationOutcome)
      → o.has_workspace ws_id ≡ true
      → report_of o run ≡ some (some outcome)
      → text_eq outcome.status (codes "done") ≡ true
      → d'
        ≡ told o ws_id
            (codes "Goal finished")
            (done_message run)
            (written ws_id (λ r. record r { status = finished_goal }) d)
      → Drives o settings ws_id run d d'
  iterates :
      (outcome : IterationOutcome)
      → o.has_workspace ws_id ≡ true
      → report_of o run ≡ some (some outcome)
      → text_eq outcome.status (codes "blocked") ≡ true
      → HasIteration run
      → is_open o run ≡ true
      → o.is_sent run.panel_id ≡ true
      → d'
        ≡ told o ws_id (codes "Goal working") (working_message run (run.iteration + 1)) (
            written ws_id
              (λ r. record r {
                iteration = run.iteration + 1;
                idle_ticks = 0;
                nudges_sent = 0;
                no_text_ticks = 0;
                status = in_progress;
              })
              (typing run.panel_id (next_prompt (reported_blocked run) run) d))
      → Drives o settings ws_id run d d'
  alarms :
      {d1 : Driver} (status : GoalStatus) (message : Text)
      → o.has_workspace ws_id ≡ true
      → Alarms o settings ws_id run d status message d1
      → d' ≡ escalate o ws_id status message d1
      → IsEscalated o ws_id status message d1 d'
      → Drives o settings ws_id run d d'
  reminds :
      (text : Chars)
      → o.has_workspace ws_id ≡ true
      → IsQuiet o settings run text
      → o.is_live run.panel_id ≡ true
      → run.nudges_sent < settings.nudge_budget
      → o.is_sent run.panel_id ≡ true
      → d'
        ≡ written ws_id
            (λ r. record r { nudges_sent = r.nudges_sent + 1; idle_ticks = 0 })
            (typing run.panel_id nudge_text (seen ws_id run d))
      → Drives o settings ws_id run d d'
