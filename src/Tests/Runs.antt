-- ===== src/Tests/Runs.antt =====
-- Runners, settings and runs of goals that the tests share.
use jmux.Base.{none, false, []}
use jmux.Base.Text.{Text, codes}
use jmux.Goal.{GoalRunner, GoalSettings, GoalRun, in_progress}

abbrev pub runner_with : Text → GoalRunner
runner_with mode = record {
  agent = codes "claude";
  model = [];
  effort = [];
  extra_args = [];
  permission_mode = mode;
  allowed_tools = [];
  command_template = [];
  state_detection = [];
}

abbrev pub settings_with : Text → GoalSettings
settings_with mode = record {
  default_runner = [];
  runners = [];
  idle_ticks_before_nudge = 5;
  nudge_budget = 3;
  wall_clock_minutes = 0;
  max_iterations = 8;
  output_dir = codes "docs/roadmap";
  permission_mode = mode;
  confirm_before_run = false;
}

-- A run on panel 31 of workspace 30, by Claude.
abbrev pub claude_run : GoalRun
claude_run = record {
  workspace_id = 30;
  panel_id = 31;
  session_id = codes "s";
  goal_name = codes "g/a";
  goal_path = codes "g:a";
  cwd = codes "/tmp";
  output_dir_rel = codes "docs";
  iteration = 1;
  max_iterations = 2;
  runner_name = codes "claude";
  runner = runner_with (codes "auto");
  status = in_progress;
  nudges_sent = 0;
  idle_ticks = 0;
  no_text_ticks = 0;
  started_epoch = 1000;
  wall_clock_minutes = 0;
  last_escalation_epoch = 0;
  graph = none;
}
