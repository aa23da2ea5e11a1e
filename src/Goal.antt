-- ===== src/Goal.antt =====
-- Goals (jmux/src/goal/mod.rs) and their settings (jmux/src/settings/mod.rs): the records of runs,
-- runners and settings.
pub mod Conditions
pub mod DeadAgent
pub mod Decisions
pub mod Drive
pub mod Drives
pub mod Messages
pub mod Ended
pub mod Escalation
pub mod Outline
pub mod Finished
pub mod Iterations
pub mod Outcome
pub mod Stalls
pub mod Steps
pub mod Paced
pub mod Permission
pub mod Registry
pub mod Slug
pub mod Typed
use jmux.Base.{ℕ, Bool, true, false, Option, List, Uuid}
use jmux.Base.Text.{Text}

pub record GoalRunner : Type 0 where
  pub agent : Text
  pub model : Text
  pub effort : Text
  pub extra_args : List Text
  pub permission_mode : Text
  pub allowed_tools : List Text
  pub command_template : Text
  pub state_detection : Text

-- The map of runners as a list of its entries.
pub record GoalSettings : Type 0 where
  pub default_runner : Text
  pub runners : List (Text × GoalRunner)
  pub idle_ticks_before_nudge : ℕ
  pub nudge_budget : ℕ
  pub wall_clock_minutes : ℕ
  pub max_iterations : ℕ
  pub output_dir : Text
  pub permission_mode : Text
  pub confirm_before_run : Bool

pub data GoalStatus : Type 0 where
  in_progress finished_goal : GoalStatus
  needs_attention blocked_goal : Text → GoalStatus

abbrev pub is_terminal : GoalStatus → Bool
is_terminal in_progress = false
is_terminal (needs_attention d) = false
is_terminal finished_goal = true
is_terminal (blocked_goal d) = true

pub record GraphLink : Type 0 where
  pub graph : Text
  pub node : Text

pub record GoalRun : Type 0 where
  pub workspace_id : Uuid
  pub panel_id : Uuid
  pub session_id : Text
  pub goal_name : Text
  pub goal_path : Text
  pub cwd : Text
  pub output_dir_rel : Text
  pub iteration : ℕ  -- u32, as the other counts
  pub max_iterations : ℕ
  pub runner_name : Text
  pub runner : GoalRunner
  pub status : GoalStatus
  pub nudges_sent : ℕ
  pub idle_ticks : ℕ
  pub no_text_ticks : ℕ
  pub started_epoch : ℕ  -- u64
  pub wall_clock_minutes : ℕ
  pub last_escalation_epoch : ℕ  -- u64
  pub graph : Option GraphLink
