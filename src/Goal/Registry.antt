-- ===== src/Goal/Registry.antt =====
-- The registry of goal runs and what changes it (jmux/src/goal/mod.rs): `set_run`, `escalate`,
-- `notify`, `register`, `stop_run` and `advance_iteration`. Log lines and desktop notifications are
-- not part of the model.
use jmux.Base.{
  ℕ, ◌+◌, ◌-◌, leb, ◌&&◌, ◌||◌, Bool, true, false, not, Option, none, some, List, [], ◌∷◌, ◌++◌,
  if◌then◌else◌, Uuid,
}
use jmux.Base.Map
use jmux.Base.Map.{Map}
use jmux.Base.Text.{Text, codes, text_eq}
use jmux.Claude.Chars.{Chars}
use jmux.Goal.{
  GoalRunner, GoalStatus, in_progress, finished_goal, needs_attention, blocked_goal, is_terminal,
  GoalRun,
}
use jmux.Goal.Iterations.{print_u32, iteration_name}
use jmux.Goal.Outcome.{IterationOutcome, parse_iteration_file}
use jmux.Notifications.{NotificationStore, add}

abbrev pub GoalRegistry : Type 0
GoalRegistry = Map GoalRun

-- What the driver changes: the runs, the notifications, and the input that it has typed into panels,
-- the newest last.
pub record Driver : Type 0 where
  pub goals : GoalRegistry
  pub notifications : NotificationStore ℕ
  pub typed : List (Uuid × Text)

-- What the driver meets outside, at one moment.
pub record Outside : Type 0 where
  pub now : ℕ
  pub new_uuid : Uuid
  pub has_workspace : Uuid → Bool
  pub read_file : Text → Text → Option Text  -- by directory and path, for all reads of a pass
  pub is_hibernated : Uuid → Bool  -- by the panel, as what follows
  pub screen_text : Uuid → Option Chars
  pub title : Uuid → Chars
  pub is_live : Uuid → Bool  -- in `all_local_claude_cwds`
  pub is_sent : Uuid → Bool  -- what `send_input_to_panel` and `send_ui_event` return
  pub is_alphanumeric : ℕ → Bool

abbrev pub set_run : Uuid → (GoalRun → GoalRun) → Driver → Driver
set_run ws_id f d = record d { goals = Map.update d.goals ws_id f }

unfoldable pub notify : Outside → Uuid → Text → Text → Driver → Driver
notify o ws_id title body d = record d {
  notifications = add o.new_uuid o.now title body (some ws_id) none d.notifications;
}

-- `send_input_to_panel`, and `UiEvent::SendInput`
abbrev pub type_into : Uuid → Text → Driver → Driver
type_into panel_id text d = record d { typed = d.typed ++ (panel_id, text) ∷ [] }

unfoldable pub status_eq : GoalStatus → GoalStatus → Bool
status_eq in_progress in_progress = true
status_eq finished_goal finished_goal = true
status_eq (needs_attention d) (needs_attention e) = text_eq d e
status_eq (blocked_goal d) (blocked_goal e) = text_eq d e
status_eq s t = false

abbrev escalation_min_secs : ℕ
escalation_min_secs = 60

unfoldable pub rate_ok : ℕ → GoalRun → Bool
rate_ok now run = leb escalation_min_secs (now - run.last_escalation_epoch)

unfoldable pub is_escalated : ℕ → GoalStatus → GoalRun → Bool
is_escalated now status run = not (status_eq run.status status) || rate_ok now run

-- `should_notify`
unfoldable pub is_notified : ℕ → GoalStatus → GoalRun → Bool
is_notified now status run =
    is_escalated now status run
    && (rate_ok now run || (is_terminal status && not (is_terminal run.status)))

unfoldable pub escalated : ℕ → GoalStatus → GoalRun → GoalRun
escalated now status run =
    if is_escalated now status run
    then record run {
      status = status;
      last_escalation_epoch = if is_notified now status run then now else run.last_escalation_epoch;
    }
    else run

unfoldable pub was_notified : ℕ → GoalStatus → Option GoalRun → Bool
was_notified now status none = false
was_notified now status (some run) = is_notified now status run

unfoldable pub escalate : Outside → Uuid → GoalStatus → Text → Driver → Driver
escalate o ws_id status message d =
    let d' = set_run ws_id (escalated o.now status) d in
    if was_notified o.now status (Map.get d.goals ws_id)
    then notify o ws_id (codes "Goal needs you") message d'
    else d'

unfoldable register : GoalRun → Driver → Driver
register run d = record d { goals = Map.insert d.goals run.workspace_id run }

abbrev stopped_by_user : GoalRun → GoalRun
stopped_by_user run = record run { status = blocked_goal (codes "stopped by user") }

-- Whether there is a run for the workspace, and the new registry.
unfoldable pub stop_run : Uuid → Driver → Driver × Bool
stop_run ws_id d =
    if Map.contains_key d.goals ws_id then (set_run ws_id stopped_by_user d, true) else (d, false)

-- `output_rel`
abbrev pub output_rel : GoalRun → ℕ → Text
output_rel run n = run.output_dir_rel ++ 47 ∷ iteration_name n

unfoldable pub state_detection_is_claude : GoalRunner → Bool
state_detection_is_claude runner =
    if text_eq runner.state_detection (codes "claude")
    then true
    else if text_eq runner.state_detection (codes "none")
    then false
    else not (text_eq runner.agent (codes "custom"))

-- `parse_iteration_file(&run.output_abs(n))`
unfoldable pub report_of : Outside → GoalRun → Option (Option IterationOutcome)
report_of o run = parse_iteration_file (o.read_file run.cwd (output_rel run run.iteration))

-- `Result<u32, String>` of `advance_iteration`
pub data Advance : Type 0 where
  no_goal not_reported not_live no_channel : Advance
  advanced : ℕ → Advance

unfoldable pub next_prompt : Text → GoalRun → Text
next_prompt reason run =
    reason
    ++ (codes " Begin iteration "
        ++ (print_u32 (run.iteration + 1)
            ++ (codes ": re-read `"
                ++ (output_rel run run.iteration
                    ++ (codes
                          "` (especially section 4), address the feedback with reasonable assumptions, "
                        ++ (codes "continue working the goal, and when finished write `"
                            ++ (output_rel run (run.iteration + 1)
                                ++ (codes
                                      "` in the same four-section format with front-matter status done or "
                                    ++ codes "blocked. Then run: jmux goal complete\r"))))))))

abbrev pub next_iteration : ℕ → GoalRun → GoalRun
next_iteration next run = record run {
  iteration = next;
  idle_ticks = 0;
  nudges_sent = 0;
  no_text_ticks = 0;
  status = in_progress;
}

abbrev is_reported : Option (Option IterationOutcome) → Bool
is_reported (some (some outcome)) = true
is_reported r = false

abbrev advance_run : Outside → Uuid → Text → Driver → Option GoalRun → Driver × Advance
advance_run o ws_id reason d none = (d, no_goal)
advance_run o ws_id reason d (some run) =
    if not (is_reported (report_of o run))
    then (d, not_reported)
    else if state_detection_is_claude run.runner && not (o.is_live run.panel_id)
    then (d, not_live)
    else if not (o.is_sent run.panel_id)
    then (d, no_channel)
    else (
      set_run ws_id (next_iteration (run.iteration + 1))
          (type_into run.panel_id (next_prompt reason run) d),
      advanced (run.iteration + 1),
    )

unfoldable pub advance_iteration : Outside → Uuid → Text → Driver → Driver × Advance
advance_iteration o ws_id reason d = advance_run o ws_id reason d (Map.get d.goals ws_id)
