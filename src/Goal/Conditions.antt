-- ===== src/Goal/Conditions.antt =====
-- What the steps of the driver (jmux/src/goal/mod.rs) depend on, and the changes that they are made of.
use jmux.Base.{
  ◌+◌, ◌-◌, ◌*◌, ◌==◌, ◌≡◌, ◌≤◌, ◌<◌, ◌⊎◌, ◌&&◌, Bool, true, false, not, Option, none, some, [],
  ◌∷◌, ◌++◌, if◌then◌else◌, Uuid,
}
use jmux.Base.Map
use jmux.Base.Text.{Text}
use jmux.Claude.Chars.{Chars}
use jmux.Claude.Classify.{ClaudeState, waiting, working, needs_input, classify}
use jmux.Claude.Menu.{has_selection_menu}
use jmux.Goal.{
  GoalStatus, in_progress, finished_goal, needs_attention, blocked_goal, GoalRun, GoalSettings,
}
use jmux.Goal.Registry.{Driver, Outside, report_of, state_detection_is_claude}
use jmux.Notifications.{add}

-- What a step changes: the run of a workspace, the notifications, and what was typed.
abbrev pub written : Uuid → (GoalRun → GoalRun) → Driver → Driver
written ws_id f d = record d { goals = Map.update d.goals ws_id f }

abbrev pub told : Outside → Uuid → Text → Text → Driver → Driver
told o ws_id title body d = record d {
  notifications = add o.new_uuid o.now title body (some ws_id) none d.notifications;
}

abbrev pub typing : Uuid → Text → Driver → Driver
typing panel_id text d = record d { typed = d.typed ++ (panel_id, text) ∷ [] }

-- A run that asks for attention no longer does; the other statuses stay.
abbrev pub calm : GoalStatus → GoalStatus
calm in_progress = in_progress
calm finished_goal = finished_goal
calm (needs_attention detail) = in_progress
calm (blocked_goal detail) = blocked_goal detail

-- The state in which the terminal's text is found: ticks without one are forgotten.
abbrev pub seen : Uuid → GoalRun → Driver → Driver
seen ws_id run d =
    if run.no_text_ticks == 0
    then d
    else written ws_id (λ r. record r { no_text_ticks = 0; status = calm r.status }) d

abbrev pub IsLate : Outside → GoalRun → Type 0
IsLate o run =
    (0 < run.wall_clock_minutes) × (run.wall_clock_minutes * 60 < o.now - run.started_epoch)

abbrev pub InTime : Outside → GoalRun → Type 0
InTime o run =
    (run.wall_clock_minutes ≡ 0) ⊎ (o.now - run.started_epoch ≤ run.wall_clock_minutes * 60)

-- A turn runs in the terminal, or none does.
abbrev pub Works : Option ClaudeState → Type 0
Works state = (state ≡ some working) ⊎ (state ≡ some waiting)

abbrev pub Rests : Option ClaudeState → Type 0
Rests state = (state ≡ some needs_input) ⊎ (state ≡ none)

-- An iteration is left: the limit is `max_iterations`, but at least one.
abbrev pub HasIteration : GoalRun → Type 0
HasIteration run = (run.iteration < run.max_iterations) ⊎ (run.iteration < 1)

-- The agent may be given input: it is no Claude, or it is live.
abbrev pub is_open : Outside → GoalRun → Bool
is_open o run = not (state_detection_is_claude run.runner && not (o.is_live run.panel_id))

-- The screen of a Claude run decides: there is no report, the run is not frozen, and it has time.
pub record IsWatched (o : Outside) (run : GoalRun) : Type 0 where
  pub unreported : report_of o run ≡ none
  pub awake : o.is_hibernated run.panel_id ≡ false
  pub in_time : InTime o run
  pub claude : state_detection_is_claude run.runner ≡ true

-- The screen shows no menu.
pub record IsRead (o : Outside) (run : GoalRun) (text : Chars) : Type 0 where
  pub watched : IsWatched o run
  pub shown : o.screen_text run.panel_id ≡ some text
  pub free : has_selection_menu text ≡ false

-- The agent has been idle for the ticks of the settings.
pub record IsQuiet (o : Outside) (settings : GoalSettings) (run : GoalRun) (text : Chars)
    : Type 0 where
  pub read : IsRead o run text
  pub quiet : Rests (classify o.is_alphanumeric text (o.title run.panel_id))
  pub due : settings.idle_ticks_before_nudge ≤ run.idle_ticks + 1
