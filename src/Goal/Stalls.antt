-- ===== src/Goal/Stalls.antt =====
-- An agent that stays idle is handed to the user: the driver (jmux/src/goal/mod.rs) sends all its
-- reminders, and then asks for attention.
use jmux.Base.{
  ℕ, zero, suc, ◌+◌, ◌-◌, ◌*◌, ◌≡◌, ◌<◌, refl, ap, sym, ◌∙◌, arith, ltb, leb, true, false, none,
  some, List, [], ◌∷◌, length, inl, inr, Bool-cases, Uuid, if◌then◌else◌,
}
use jmux.Base.Map
use jmux.Base.Text.{Text}
use jmux.Claude.Chars.{Chars}
use jmux.Claude.Classify.{classify}
use jmux.Claude.Menu.{has_selection_menu}
use jmux.Goal.{in_progress, needs_attention, GoalRun, GoalSettings}
use jmux.Goal.Registry.{
  Driver, Outside, escalated, is_escalated, status_eq, report_of, state_detection_is_claude,
}
use jmux.Goal.Messages.{stalled, stalled_message}
use jmux.Goal.Drive.{
  is_busy, count_idle, nudged, on_idle, on_text, on_screen, watch, on_report, is_out_of_time,
  drive_one, drive_passes,
}
use jmux.Goal.Paced.{escalate-goals}

-- The run after some reminders and idle ticks, with its text on screen.
abbrev pub at : GoalRun → ℕ → ℕ → GoalRun
at run n i = record run { nudges_sent = n; idle_ticks = i; no_text_ticks = 0; status = in_progress }

-- A moment at which the agent of the run is live and idle, and takes input.
pub record IsIdle (ws_id : Uuid) (run : GoalRun) (o : Outside) : Type 0 where
  pub here : o.has_workspace ws_id ≡ true
  pub no_report : report_of o run ≡ none
  pub awake : o.is_hibernated run.panel_id ≡ false
  pub in_time : is_out_of_time o run ≡ false
  pub claude : state_detection_is_claude run.runner ≡ true
  pub screen : Chars
  pub seen : o.screen_text run.panel_id ≡ some screen
  pub no_menu : has_selection_menu screen ≡ false
  pub quiet : is_busy (classify o.is_alphanumeric screen (o.title run.panel_id)) ≡ false
  pub live : o.is_live run.panel_id ≡ true
  pub takes_input : o.is_sent run.panel_id ≡ true

abbrev AllIdle : Uuid → GoalRun → List Outside → Type 0
AllIdle ws_id run [] = Unit {0}
AllIdle ws_id run (o ∷ os) = IsIdle ws_id run o × AllIdle ws_id run os

-- Ticks from one reminder to the next.
abbrev patience : GoalSettings → ℕ
patience settings =
    if ltb settings.idle_ticks_before_nudge 1 then 1 else settings.idle_ticks_before_nudge

-- Ticks that are left where `m` reminders and `i` idle ticks are.
passes_left : ℕ → ℕ → ℕ → ℕ
passes_left zero k i = k - i
passes_left (suc m) k i = k + passes_left m k i

passes_left_lem : (m k : ℕ) → passes_left m k 0 ≡ (m + 1) * k
unfolding passes_left
passes_left_lem zero k = omega arith
passes_left_lem (suc m) k = grind (arith, passes_left_lem m k)

passes_left-suc : (m k i : ℕ) → i < k → passes_left m k i ≡ suc (passes_left m k (i + 1))
unfolding passes_left
passes_left-suc zero k i h = omega arith
passes_left-suc (suc m) k i h = omega (arith, passes_left-suc m k i h)

passes_left-full : (m k : ℕ) → passes_left m k k + k ≡ passes_left m k 0
unfolding passes_left
passes_left-full zero k = omega arith
passes_left-full (suc m) k = omega (arith, passes_left-full m k)

passes_left-last : (k i : ℕ) → i + 1 ≡ k → passes_left 0 k i ≡ 1
unfolding passes_left
passes_left-last k i e = omega arith

passes_left-again : (m k : ℕ) → passes_left (suc m) k k ≡ passes_left m k 0
unfolding passes_left
passes_left-again m k = omega (arith, passes_left-full m k)

-- A reminder begins the count anew.
passes_left-reminder : (m k i : ℕ) → i + 1 ≡ k → passes_left (suc m) k i ≡ suc (passes_left m k 0)
passes_left-reminder m k i e =
    passes_left-suc (suc m) k i (omega arith)
    ∙ ap suc (ap (passes_left (suc m) k) e ∙ passes_left-again m k)

module _ (settings : GoalSettings) (ws_id : Uuid) (run : GoalRun) where
  idle_pass :
      (o : Outside) (d : Driver) (n i : ℕ)
      → IsIdle ws_id run o
      → Map.get d.goals ws_id ≡ some (at run n i)
      → drive_one o settings ws_id d ≡ on_idle o settings ws_id (at run n i) d
  unfolding drive_one on_report watch on_screen on_text report_of is_out_of_time
  idle_pass o d n i idle found =
      rw
        (
          found, idle.here, idle.no_report, idle.awake, idle.in_time, idle.claude, idle.seen,
          idle.no_menu, idle.quiet,
        )
        refl

  -- The run asks for attention, after all reminders.
  pub record IsStalled (d : Driver) : Type 0 where
    pub last : GoalRun
    pub found : Map.get d.goals ws_id ≡ some last
    pub detail : Text
    pub asks : last.status ≡ needs_attention detail
    pub reminded : last.nudges_sent ≡ settings.nudge_budget

  no_passes :
      (os : List Outside) (d : Driver) → length os ≡ 0 → drive_passes settings ws_id os d ≡ d
  unfolding drive_passes
  no_passes [] d e = refl
  no_passes (o ∷ os) d e = absurd (omega arith)

  idle_counted :
      (o : Outside) (d : Driver) (n i : ℕ)
      → IsIdle ws_id run o
      → Map.get d.goals ws_id ≡ some (at run n i)
      → ltb (i + 1) settings.idle_ticks_before_nudge ≡ true
      → Map.get (drive_one o settings ws_id d).goals ws_id ≡ some (at run n (i + 1))
  unfolding on_idle
  idle_counted o d n i idle found few =
      rw (idle_pass o d n i idle found, few)
        (Map.get-update_self d.goals ws_id (count_idle (i + 1)) found)

  idle_reminded :
      (o : Outside) (d : Driver) (n i : ℕ)
      → IsIdle ws_id run o
      → Map.get d.goals ws_id ≡ some (at run n i)
      → ltb (i + 1) settings.idle_ticks_before_nudge ≡ false
      → n < settings.nudge_budget
      → Map.get (drive_one o settings ws_id d).goals ws_id ≡ some (at run (n + 1) 0)
  unfolding on_idle
  idle_reminded o d n i idle found due left =
      let more_left : leb settings.nudge_budget n ≡ false = ground arith in
      rw (idle_pass o d n i idle found, due, idle.live, more_left, idle.takes_input)
        (Map.get-update_self d.goals ws_id nudged found)

  idle_escalated :
      (o : Outside) (d : Driver) (n i : ℕ)
      → IsIdle ws_id run o
      → Map.get d.goals ws_id ≡ some (at run n i)
      → ltb (i + 1) settings.idle_ticks_before_nudge ≡ false
      → n ≡ settings.nudge_budget
      → IsStalled (drive_one o settings ws_id d)
  unfolding on_idle escalated is_escalated status_eq
  idle_escalated o d n i idle found due all_sent =
      let none_left : leb settings.nudge_budget n ≡ true = ground arith in
      let status = needs_attention (stalled (at run n i)) in
      record {
        last = escalated o.now status (at run n i);
        found =
            rw
              (
                idle_pass o d n i idle found,
                due,
                idle.live,
                none_left,
                escalate-goals o ws_id status (stalled_message (at run n i)) d,
              )
              (Map.get-update_self d.goals ws_id (escalated o.now status) found);
        detail = stalled (at run n i);
        asks = refl;
        reminded = all_sent;
      }

  patience-few :
      (i : ℕ) → ltb (i + 1) settings.idle_ticks_before_nudge ≡ true → i + 1 < patience settings
  patience-few i e = ground arith

  patience-due :
      (i : ℕ)
      → ltb (i + 1) settings.idle_ticks_before_nudge ≡ false
      → i < patience settings
      → i + 1 ≡ patience settings
  patience-due i e h = ground arith

  stalls_from :
      (m n i : ℕ) (os : List Outside) (d : Driver)
      → n + m ≡ settings.nudge_budget
      → i < patience settings
      → AllIdle ws_id run os
      → length os ≡ passes_left m (patience settings) i
      → Map.get d.goals ws_id ≡ some (at run n i)
      → IsStalled (drive_passes settings ws_id os d)
  unfolding drive_passes
  stalls_from m n i [] d sum few idle len found =
      absurd (omega (arith, passes_left-suc m (patience settings) i few))
  stalls_from zero n i (o ∷ os) d sum few idle len found =
      let k = patience settings in
      elim (Bool-cases (ltb (i + 1) settings.idle_ticks_before_nudge)) [
        | inl e ↦
            stalls_from zero n (i + 1) os (drive_one o settings ws_id d) sum (patience-few i e)
              idle.1 (omega (arith, passes_left-suc zero k i few))
              (idle_counted o d n i idle.0 found e)
        | inr e ↦
            let ended : length os ≡ 0 =
              omega (arith, passes_left-last k i (patience-due i e few)) in
            rw (no_passes os (drive_one o settings ws_id d) ended)
              (idle_escalated o d n i idle.0 found e (omega arith))
      ]
  stalls_from (suc m) n i (o ∷ os) d sum few idle len found =
      let k = patience settings in
      elim (Bool-cases (ltb (i + 1) settings.idle_ticks_before_nudge)) [
        | inl e ↦
            stalls_from (suc m) n (i + 1) os (drive_one o settings ws_id d) sum (patience-few i e)
              idle.1 (omega (arith, passes_left-suc (suc m) k i few))
              (idle_counted o d n i idle.0 found e)
        | inr e ↦
            stalls_from m (n + 1) 0 os (drive_one o settings ws_id d) (omega arith) (ground arith)
              idle.1 (omega (arith, passes_left-reminder m k i (patience-due i e few)))
              (idle_reminded o d n i idle.0 found e (omega arith))
      ]

  -- A fresh Claude run whose agent stays live, idle and not frozen, takes input, shows no menu,
  -- writes no report and reaches no limit of time has, after one more round of idle ticks than
  -- there are reminders, been sent all reminders and asks for attention.
  pub drive_passes-IsStalled :
      (os : List Outside) (d : Driver)
      → Map.get d.goals ws_id ≡ some (at run 0 0)
      → AllIdle ws_id run os
      → length os ≡ (settings.nudge_budget + 1) * patience settings
      → IsStalled (drive_passes settings ws_id os d)
  drive_passes-IsStalled os d found idle len =
      stalls_from settings.nudge_budget 0 0 os d (omega arith) (ground arith) idle
        (len ∙ sym (passes_left_lem settings.nudge_budget (patience settings))) found
