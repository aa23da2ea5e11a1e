-- ===== src/Goal/Typed.antt =====
-- What the driver (jmux/src/goal/mod.rs) types, and into which panels.
use jmux.Base.{
  ◌≡◌, ◌<◌, ◌⊎◌, refl, ◌∙◌, true, some, List, [], ◌∷◌, ◌++◌, inl, inr, Bool-cases, Uuid,
}
use jmux.Base.Map
use jmux.Base.Text.{Text, codes, text_eq}
use jmux.Claude.Chars.{Chars}
use jmux.Goal.{GoalStatus, GoalRun, GoalSettings}
use jmux.Goal.Outcome.{IterationOutcome}
use jmux.Goal.Registry.{Driver, Outside, escalate, was_notified, notify, next_prompt, report_of}
use jmux.Goal.Messages.{iteration_cap, nudge_text, reported_blocked}
use jmux.Goal.Drive.{drive_one}
use jmux.Goal.Conditions.{IsQuiet, is_open}
use jmux.Goal.Outline.{
  Counts, same, more, Outlines, counts, drops, finishes, iterates, escalates, reminds,
}
use jmux.Goal.Outline.{drive_one-Outlines}

-- A text that may be typed into the panel of the run. The prompt for another iteration: the report
-- says that the run is blocked, an iteration is left, and a Claude agent is live. The reminder: the
-- agent is live, and idle for as long as the settings say, and a reminder is left.
pub data MayType (o : Outside) (settings : GoalSettings) (run : GoalRun) (text : Text)
    : Type 0 where
  prompt :
      (outcome : IterationOutcome)
      → report_of o run ≡ some (some outcome)
      → text_eq outcome.status (codes "blocked") ≡ true
      → run.iteration < iteration_cap run
      → is_open o run ≡ true
      → text ≡ next_prompt (reported_blocked run) run
      → MayType o settings run text
  reminder :
      (screen : Chars)
      → IsQuiet o settings run screen
      → o.is_live run.panel_id ≡ true
      → run.nudges_sent < settings.nudge_budget
      → text ≡ nudge_text
      → MayType o settings run text

-- Nothing is typed, or one text that may be.
abbrev pub Types :
    Outside → GoalSettings → GoalRun → List (Uuid × Text) → List (Uuid × Text) → Type 0
Types o settings run before after =
    (after ≡ before)
    ⊎ ((text : Text) × MayType o settings run text × (after ≡ before ++ (run.panel_id, text) ∷ []))

Counts-typed : {ws_id : Uuid} {d d' : Driver} → Counts ws_id d d' → d'.typed ≡ d.typed
Counts-typed same = refl
Counts-typed (more c g k) = Counts-typed c

escalate-typed :
    (o : Outside) (ws_id : Uuid) (status : GoalStatus) (message : Text) (d : Driver)
    → (escalate o ws_id status message d).typed ≡ d.typed
unfolding escalate notify
escalate-typed o ws_id status message d =
    elim (Bool-cases (was_notified o.now status (Map.get d.goals ws_id))) [
      | inl e ↦ rw e refl
      | inr e ↦ rw e refl
    ]

Outlines-Types :
    (o : Outside) (settings : GoalSettings) (ws_id : Uuid) (run : GoalRun) (d d' : Driver)
    → Outlines o settings ws_id run d d'
    → Types o settings run d.typed d'.typed
unfolding notify
Outlines-Types o settings ws_id run d d' (counts c) = inl (Counts-typed c)
Outlines-Types o settings ws_id run d d' (drops gone e) = inl (rw e refl)
Outlines-Types o settings ws_id run d d' (finishes outcome title body report says e) =
    inl (rw e refl)
Outlines-Types o settings ws_id run d d'
      (iterates outcome title body report says below open_pane e) =
    inr (
      next_prompt (reported_blocked run) run,
      prompt outcome report says below open_pane refl,
      rw e refl,
    )
Outlines-Types o settings ws_id run d d' (escalates {d1} status message c e) =
    inl (rw e (escalate-typed o ws_id status message d1 ∙ Counts-typed c))
Outlines-Types o settings ws_id run d d' (reminds text c quiet alive left e) =
    inr (nudge_text, reminder text quiet alive left refl, rw (e, Counts-typed c) refl)

-- A pass over a run that is registered under its workspace types nothing, or one text into the
-- run's panel: the prompt for the next iteration, only if the report says `blocked`, an iteration
-- is left, and no dead Claude is in the pane; or the reminder, only if there is no report, the
-- agent is live, not frozen and idle for the ticks of the settings, no menu is on its screen, and a
-- reminder is left.
pub drive_one-Types :
    (o : Outside) (settings : GoalSettings) (ws_id : Uuid) (run : GoalRun) (d : Driver)
    → run.workspace_id ≡ ws_id
    → Map.get d.goals ws_id ≡ some run
    → Types o settings run d.typed (drive_one o settings ws_id d).typed
drive_one-Types o settings ws_id run d key found =
    Outlines-Types o settings ws_id run d (drive_one o settings ws_id d)
      (drive_one-Outlines o settings ws_id run d key found)
