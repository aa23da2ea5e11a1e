-- ===== src/Goal/Messages.antt =====
-- The texts of the driver (jmux/src/goal/mod.rs): what it notifies and what it types.
use jmux.Base.{ℕ, ltb, Bool, true, false, [], ◌∷◌, ◌++◌, if◌then◌else◌}
use jmux.Base.Text.{Text, codes}
use jmux.Goal.{GoalRun}
use jmux.Goal.Iterations.{print_u32}
use jmux.Goal.Registry.{output_rel}

-- The UTF-8 bytes of ` — `.
unfoldable pub dash : Text
dash = 32 ∷ 226 ∷ 128 ∷ 148 ∷ 32 ∷ []

-- `'{name}'`
unfoldable pub quoted : Text → Text
quoted name = codes "'" ++ (name ++ codes "'")

-- `started_iteration_cap`
abbrev pub iteration_cap : GoalRun → ℕ
iteration_cap run = if ltb run.max_iterations 1 then 1 else run.max_iterations

unfoldable pub done_message : GoalRun → Text
done_message run =
    quoted run.goal_name
    ++ (codes " is done" ++ (dash ++ (codes "read " ++ output_rel run run.iteration)))

unfoldable pub working_message : GoalRun → ℕ → Text
working_message run next =
    quoted run.goal_name
    ++ (codes " could not finish yet"
        ++ (dash
            ++ (codes "starting iteration "
                ++ (print_u32 next ++ (codes " of " ++ print_u32 (iteration_cap run))))))

unfoldable pub blocked_message : GoalRun → Text
blocked_message run =
    quoted run.goal_name
    ++ (codes " stopped"
        ++ (dash
            ++ (codes "the agent could not finish; its reasons are in section 4 of "
                ++ output_rel run run.iteration)))

unfoldable pub unrecognised : Text → Text
unrecognised status = codes "unrecognised status " ++ quoted status

unfoldable pub unrecognised_message : GoalRun → Text → Text
unrecognised_message run status =
    quoted run.goal_name
    ++ (codes " wrote an "
        ++ (unrecognised status
            ++ (codes " in "
                ++ (output_rel run run.iteration ++ (dash ++ codes "expected done or blocked")))))

unfoldable pub reported_blocked : GoalRun → Text
reported_blocked run =
    codes "Iteration " ++ (print_u32 run.iteration ++ codes " reported status: blocked.")

unfoldable pub no_status_message : GoalRun → Text
no_status_message run =
    codes "the agent for "
    ++ (quoted run.goal_name
        ++ (codes " wrote "
            ++ (output_rel run run.iteration
                ++ (codes " without the `status: done|blocked` line jmux waits for"
                    ++ (dash ++ codes "open its workspace")))))

unfoldable pub time_message : GoalRun → Text
time_message run =
    quoted run.goal_name
    ++ (codes " ran for "
        ++ (print_u32 run.wall_clock_minutes
            ++ (codes " minutes without finishing"
                ++ (dash ++ codes "jmux stopped driving it; open its workspace to take over"))))

unfoldable pub spawn_detail : Bool → Text
spawn_detail true = codes "running but its terminal cannot be read"
spawn_detail false = codes "failed to start"

unfoldable pub spawn_message : GoalRun → Text → Text
spawn_message run detail =
    quoted run.goal_name
    ++ (32 ∷ detail
        ++ (dash
            ++ (codes "jmux could not start or read its terminal, which should not happen; "
                ++ codes "open its workspace and check the jmux log for the spawn error")))

unfoldable pub nudge_text : Text
nudge_text =
    codes
      "Continue working toward the goal. When it is complete (or you cannot proceed), write the "
    ++ codes "iteration file exactly as instructed, then run: jmux goal report\r"

unfoldable pub exited_message : GoalRun → Text
exited_message run =
    codes "the agent for "
    ++ (quoted run.goal_name
        ++ (codes " exited before writing its iteration report ("
            ++ (output_rel run run.iteration ++ codes ")")))

unfoldable pub stalled : GoalRun → Text
stalled run = codes "stalled after " ++ (print_u32 run.nudges_sent ++ codes " reminders")

unfoldable pub stalled_message : GoalRun → Text
stalled_message run =
    codes "the agent for "
    ++ (quoted run.goal_name
        ++ (codes " stalled "
            ++ (print_u32 run.nudges_sent
                ++ (codes " times" ++ (dash ++ codes "it may be stuck; open its workspace")))))

unfoldable pub menu_message : GoalRun → Text
menu_message run =
    codes "the agent for "
    ++ (quoted run.goal_name
        ++ (codes " is waiting for you to answer a prompt" ++ (dash ++ codes "open its workspace")))
