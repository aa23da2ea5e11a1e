-- ===== src/Tests/Drivers.antt =====
-- Passes of the driver of goals, and the theorems on them applied.
use jmux.Base.{ℕ, ◌≡◌, refl, arith, true, false, none, some, [], ◌∷◌}
use jmux.Base.Map
use jmux.Base.Text.{codes}
use jmux.Claude.Classify.{classify}
use jmux.Claude.Menu.{has_selection_menu, has_pointer_menu, has_menu_footer, menu_from}
use jmux.Claude.Chars.{tail}
use jmux.Claude.Turn.{is_active_turn, has_live_spinner, has_live_timer, timer_from}
use jmux.Claude.Background.{
  is_background_running, has_shell_count, shell_count_from, waiting_for_background_agents,
  has_subagent_row,
}
use jmux.Claude.Question.{last_response_is_question, recent_from}
use jmux.Goal.{GoalSettings}
use jmux.Goal.Outcome.{parse_iteration_file, parse_lines, parse_front_matter}
use jmux.Goal.Registry.{Driver, Outside, notify, report_of, state_detection_is_claude}
use jmux.Goal.Drive.{on_iteration_file, on_report, drive_one, drive_passes, tick, is_out_of_time}
use jmux.Goal.Steps.{Drives}
use jmux.Goal.Drives.{drive_one-Drives}
use jmux.Goal.Typed.{Types, drive_one-Types}
use jmux.Goal.Paced.{ArePaced, tick-ArePaced}
use jmux.Goal.Ended.{IsSeen, has_ended, drive_one-IsSeen}
use jmux.Goal.Stalls.{IsIdle, IsStalled, drive_passes-IsStalled}
use jmux.Goal.DeadAgent.{IsDead, drive_passes-dead}
use jmux.Graph.{GraphNode, default_node, running, review}
use jmux.Graph.Schedule.{World, sync_node, to_finish}
use jmux.Graph.Reported.{tick-sync_node}
use jmux.Tests.Graphs.{good_world}
use jmux.Tests.Runs.{settings_with, claude_run}

-- A moment at which the agent sits at its prompt.
abbrev quiet : Outside
quiet = record {
  now = 2000;
  new_uuid = 90;
  has_workspace = λ ws_id. true;
  read_file = λ cwd path. none;
  is_hibernated = λ panel_id. false;
  screen_text = λ panel_id. some [];
  title = λ panel_id. [];
  is_live = λ panel_id. true;
  is_sent = λ panel_id. true;
  is_alphanumeric = λ c. false;
}

-- One reminder, after two idle ticks.
abbrev hasty : GoalSettings
hasty = record (settings_with (codes "auto")) { idle_ticks_before_nudge = 2; nudge_budget = 1 }

abbrev driver : Driver
driver = record { goals = (30, claude_run) ∷ []; notifications = []; typed = [] }

-- The report of the first iteration says this.
abbrev reporting : Outside
reporting = record quiet {
  read_file = λ cwd path. some (codes "---\nstatus: blocked\n---\n");
  is_live = λ panel_id. false;
}

abbrev finished : Outside
finished = record quiet { read_file = λ cwd path. some (codes "---\nstatus: done\n---\n") }

quiet-IsIdle : IsIdle 30 claude_run quiet
unfolding report_of parse_iteration_file is_out_of_time state_detection_is_claude has_selection_menu
    has_pointer_menu has_menu_footer menu_from tail classify is_active_turn has_live_spinner
    has_live_timer timer_from is_background_running has_shell_count shell_count_from
    waiting_for_background_agents has_subagent_row last_response_is_question recent_from
quiet-IsIdle = record {
  here = refl;
  no_report = refl;
  awake = refl;
  in_time = refl;
  claude = refl;
  screen = [];
  seen = refl;
  no_menu = refl;
  quiet = refl;
  live = refl;
  takes_input = refl;
}

drive_passes-IsStalled_example :
    IsStalled hasty 30 claude_run
      (drive_passes hasty 30 (quiet ∷ quiet ∷ quiet ∷ quiet ∷ []) driver)
drive_passes-IsStalled_example =
    drive_passes-IsStalled hasty 30 claude_run (quiet ∷ quiet ∷ quiet ∷ quiet ∷ []) driver refl
      (quiet-IsIdle, (quiet-IsIdle, (quiet-IsIdle, (quiet-IsIdle, tt)))) refl

drive_one-Drives_example :
    Drives finished hasty 30 claude_run driver (drive_one finished hasty 30 driver)
drive_one-Drives_example = drive_one-Drives finished hasty 30 claude_run driver refl refl

drive_one-Types_example : Types quiet hasty claude_run [] (drive_one quiet hasty 30 driver).typed
drive_one-Types_example = drive_one-Types quiet hasty 30 claude_run driver refl refl

tick-ArePaced_example : ArePaced (λ ws_id. 1) hasty (tick quiet (λ ws_id. quiet) hasty driver)
tick-ArePaced_example =
    tick-ArePaced (λ ws_id. 1) hasty quiet (λ ws_id. quiet) driver
      (record { key = refl; reminders = omega arith; iterations = omega arith }, tt)

finished-ended : has_ended (Map.get (drive_one finished hasty 30 driver).goals 30) ≡ true
unfolding drive_one on_report report_of parse_iteration_file parse_lines parse_front_matter
    on_iteration_file notify
finished-ended = refl

drive_one-IsSeen_example : IsSeen 30 (drive_one finished hasty 30 driver).notifications
drive_one-IsSeen_example =
    drive_one-IsSeen finished hasty 30 claude_run driver refl refl refl finished-ended

reporting-IsDead : IsDead claude_run reporting
unfolding report_of parse_iteration_file parse_lines parse_front_matter
reporting-IsDead = record {
  here = refl;
  outcome = record { status = codes "blocked" };
  report = refl;
  says = refl;
  gone = refl;
}

claude_run-IsClaude : state_detection_is_claude claude_run.runner ≡ true
unfolding state_detection_is_claude
claude_run-IsClaude = refl

drive_passes-dead_example : drive_passes hasty 30 (reporting ∷ reporting ∷ []) driver ≡ driver
drive_passes-dead_example =
    drive_passes-dead hasty claude_run driver (reporting ∷ reporting ∷ []) refl (omega arith)
      claude_run-IsClaude (reporting-IsDead, (reporting-IsDead, tt))

-- The node that the run works on, and what the graphs meet after a tick of the driver.
abbrev step : GraphNode ℕ
unfolding default_node
step = record default_node { id = codes "a"; status = running; workspace = some 30 }

abbrev after_tick : World ℕ
after_tick = record good_world {
  goals = λ ws_id. Map.get (tick finished (λ ws_id. finished) hasty driver).goals ws_id;
}

tick-sync_node_example :
    (to_finish after_tick false step ≡ true)
    × (sync_node after_tick true step ≡ record step { iteration = 1; status = review })
unfolding report_of parse_iteration_file parse_lines parse_front_matter step
tick-sync_node_example =
    tick-sync_node (λ ws_id. 1) hasty finished (λ ws_id. finished) driver claude_run
      (record { status = codes "done" }) after_tick step
      (record { key = refl; reminders = omega arith; iterations = omega arith }, tt) refl refl refl
      refl refl (λ ws_id. refl) refl refl
