-- ===== src/Goal/Decisions.antt =====
-- What the tests of the driver (jmux/src/goal/mod.rs) decide, and the run that is found after a write.
use jmux.Base.{
  ◌≡◌, refl, arith, ltb, true, false, Option, none, some, inl, inr, Bool-cases, Uuid, ◌==◌,
}
use jmux.Base.Map
use jmux.Claude.Classify.{ClaudeState, waiting, working, needs_input}
use jmux.Goal.{GoalStatus, in_progress, finished_goal, needs_attention, blocked_goal, GoalRun}
use jmux.Goal.Registry.{Driver, Outside}
use jmux.Goal.Messages.{iteration_cap}
use jmux.Goal.Drive.{resumed, is_busy, is_out_of_time}
use jmux.Goal.Conditions.{calm, seen, written, IsLate, InTime, Works, Rests, HasIteration}

pub resumed-calm : (s : GoalStatus) → resumed s ≡ calm s
resumed-calm in_progress = refl
resumed-calm finished_goal = refl
resumed-calm (needs_attention d) = refl
resumed-calm (blocked_goal d) = refl

pub is_busy-Works : (state : Option ClaudeState) → is_busy state ≡ true → Works state
is_busy-Works (some working) e = inl refl
is_busy-Works (some waiting) e = inr refl
is_busy-Works (some needs_input) e = cc
is_busy-Works none e = cc

pub is_busy-Rests : (state : Option ClaudeState) → is_busy state ≡ false → Rests state
is_busy-Rests (some working) e = cc
is_busy-Rests (some waiting) e = cc
is_busy-Rests (some needs_input) e = inl refl
is_busy-Rests none e = inr refl

pub late : (o : Outside) (run : GoalRun) → is_out_of_time o run ≡ true → IsLate o run
unfolding is_out_of_time
late o run e = ground arith

pub early : (o : Outside) (run : GoalRun) → is_out_of_time o run ≡ false → InTime o run
unfolding is_out_of_time
early o run e = elim (Bool-cases (ltb 0 run.wall_clock_minutes)) [
  | inl limited ↦ inr (ground arith)
  | inr free ↦ inl (ground arith)
]

pub iteration_left :
    (run : GoalRun) → ltb run.iteration (iteration_cap run) ≡ true → HasIteration run
iteration_left run e = elim (Bool-cases (ltb run.max_iterations 1)) [
  | inl least ↦ inr (ground arith)
  | inr most ↦ inl (ground arith)
]

-- The run of a workspace after a write, and after its text was found.
pub get-written :
    (ws_id : Uuid) (f : GoalRun → GoalRun) (d : Driver) {r : GoalRun}
    → Map.get d.goals ws_id ≡ some r
    → (r' : GoalRun) × (Map.get (written ws_id f d).goals ws_id ≡ some r')
get-written ws_id f d {r} found = (f r, Map.get-update_self d.goals ws_id f found)

pub get-seen :
    (ws_id : Uuid) (run : GoalRun) (d : Driver) {r : GoalRun}
    → Map.get d.goals ws_id ≡ some r
    → (r' : GoalRun) × (Map.get (seen ws_id run d).goals ws_id ≡ some r')
get-seen ws_id run d {r} found = elim (Bool-cases (run.no_text_ticks == 0)) [
  | inl e ↦ rw e (r, found)
  | inr e ↦ rw e (get-written ws_id _ d found)
]
