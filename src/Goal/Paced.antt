-- ===== src/Goal/Paced.antt =====
-- The driver (jmux/src/goal/mod.rs) keeps within the limits: reminders within `nudge_budget`,
-- iterations within `max_iterations`.
use jmux.Base.{
  if◌then◌else◌, ltb, ℕ, ◌+◌, ◌≡◌, ◌≤◌, refl, ◌∙◌, arith, none, some, List, [], ◌∷◌, map, inl, inr,
  Bool-cases, Option-cases, retain, Uuid,
}
use jmux.Base.Map
use jmux.Base.Text.{Text}
use jmux.Goal.{GoalStatus, GoalRun, GoalSettings}
use jmux.Goal.Registry.{
  Driver, Outside, escalate, escalated, is_escalated, was_notified, notify, next_iteration,
}
use jmux.Goal.Messages.{iteration_cap}
use jmux.Goal.Drive.{nudged, finish_run, drive_one, drive_all, is_kept, is_driven, purged, tick}
use jmux.Goal.Outline.{
  IsCount, Counts, same, more, Outlines, counts, drops, finishes, iterates, escalates, reminds,
}
use jmux.Goal.Outline.{drive_one-Outlines}

-- The later of the iteration that a run was launched with and its ceiling.
abbrev pub last_iteration : ℕ → GoalRun → ℕ
last_iteration first run = if ltb first (iteration_cap run) then iteration_cap run else first

-- A run under the identifier of its workspace, and within the limits; `first` tells the iterations
-- that runs were launched with.
pub record IsPaced (first : Uuid → ℕ) (settings : GoalSettings) (ws_id : Uuid) (run : GoalRun)
    : Type 0 where
  pub key : run.workspace_id ≡ ws_id
  pub reminders : run.nudges_sent ≤ settings.nudge_budget
  pub iterations : run.iteration ≤ last_iteration (first ws_id) run

abbrev pub ArePaced : (Uuid → ℕ) → GoalSettings → Driver → Type 0
ArePaced first settings d = Map.All (IsPaced first settings) d.goals

pub escalate-goals :
    (o : Outside) (ws_id : Uuid) (status : GoalStatus) (message : Text) (d : Driver)
    → (escalate o ws_id status message d).goals ≡ Map.update d.goals ws_id (escalated o.now status)
unfolding escalate notify
escalate-goals o ws_id status message d =
    elim (Bool-cases (was_notified o.now status (Map.get d.goals ws_id))) [
      | inl e ↦ rw e refl
      | inr e ↦ rw e refl
    ]

module _ (first : Uuid → ℕ) (settings : GoalSettings) where
  count-IsPaced :
      (g : GoalRun → GoalRun)
      → IsCount g
      → (ws_id : Uuid) (run : GoalRun) → IsPaced first settings ws_id run
      → IsPaced first settings ws_id (g run)
  count-IsPaced g k ws_id run p = record {
    key = k.same_workspace run ∙ p.key;
    reminders = ground (arith, k.same_reminders run, p.reminders);
    iterations = ground (arith, k.same_iteration run, k.same_cap run, p.iterations);
  }

  Counts-ArePaced :
      {ws_id : Uuid} {d d' : Driver}
      → Counts ws_id d d'
      → ArePaced first settings d
      → ArePaced first settings d'
  Counts-ArePaced same p = p
  Counts-ArePaced {ws_id} (more {d1} c g k) p =
      Map.All-update_keeping (IsPaced first settings) d1.goals ws_id g (count-IsPaced g k)
        (Counts-ArePaced c p)

  escalated-IsPaced :
      (now : ℕ) (status : GoalStatus) (ws_id : Uuid) (run : GoalRun)
      → IsPaced first settings ws_id run
      → IsPaced first settings ws_id (escalated now status run)
  unfolding escalated
  escalated-IsPaced now status ws_id run p = elim (Bool-cases (is_escalated now status run)) [
    | inl e ↦ rw e record { key = p.key; reminders = p.reminders; iterations = p.iterations }
    | inr e ↦ rw e p
  ]

  Counts-get :
      {ws_id : Uuid} {d d' : Driver} (run : GoalRun)
      → Counts ws_id d d'
      → Map.get d.goals ws_id ≡ some run
      → (r : GoalRun) × (Map.get d'.goals ws_id ≡ some r) × (r.nudges_sent ≡ run.nudges_sent)
  Counts-get run same found = (run, found, refl)
  Counts-get {ws_id} run (more {d1} c g k) found =
      let (r, here, sent) = Counts-get run c found in
      (g r, Map.get-update_self d1.goals ws_id g here, k.same_reminders r ∙ sent)

  Outlines-ArePaced :
      (o : Outside) (ws_id : Uuid) (run : GoalRun) (d d' : Driver)
      → Map.get d.goals ws_id ≡ some run
      → Outlines o settings ws_id run d d'
      → ArePaced first settings d
      → ArePaced first settings d'
  unfolding notify
  Outlines-ArePaced o ws_id run d d' found (counts c) p = Counts-ArePaced c p
  Outlines-ArePaced o ws_id run d d' found (drops gone e) p =
      rw e (Map.All-remove (IsPaced first settings) d.goals ws_id p)
  Outlines-ArePaced o ws_id run d d' found (finishes outcome title body report says e) p = rw e (
      Map.All-update_keeping (IsPaced first settings) d.goals ws_id finish_run
        (λ i r q. record { key = q.key; reminders = q.reminders; iterations = q.iterations }) p)
  Outlines-ArePaced o ws_id run d d' found
        (iterates outcome title body report says below open_pane e) p =
      let q = Map.All-get (IsPaced first settings) d.goals ws_id p found in
      rw e (
        Map.All-update (IsPaced first settings) d.goals ws_id (next_iteration (run.iteration + 1))
          found record { key = q.key; reminders = omega arith; iterations = ground arith } p)
  Outlines-ArePaced o ws_id run d d' found (escalates {d1} status message c e) p =
      rw (e, escalate-goals o ws_id status message d1)
        (Map.All-update_keeping (IsPaced first settings) d1.goals ws_id (escalated o.now status)
          (escalated-IsPaced o.now status) (Counts-ArePaced c p))
  Outlines-ArePaced o ws_id run d d' found (reminds {d1} text c quiet live left e) p =
      let (r, here, sent) = Counts-get run c found in
      let p1 = Counts-ArePaced c p in
      let q = Map.All-get (IsPaced first settings) d1.goals ws_id p1 here in
      rw e (
        Map.All-update (IsPaced first settings) d1.goals ws_id nudged here
          record { key = q.key; reminders = omega arith; iterations = q.iterations } p1)

  pub drive_absent :
      (o : Outside) (ws_id : Uuid) (d : Driver)
      → Map.get d.goals ws_id ≡ none
      → drive_one o settings ws_id d ≡ d
  unfolding drive_one
  drive_absent o ws_id d absent = rw absent refl

  pub drive_one-ArePaced :
      (o : Outside) (ws_id : Uuid) (d : Driver)
      → ArePaced first settings d
      → ArePaced first settings (drive_one o settings ws_id d)
  drive_one-ArePaced o ws_id d p = elim (Option-cases (Map.get d.goals ws_id)) [
    | inl absent ↦ rw (drive_absent o ws_id d absent) p
    | inr (run, found) ↦
        let q = Map.All-get (IsPaced first settings) d.goals ws_id p found in
        Outlines-ArePaced o ws_id run d (drive_one o settings ws_id d) found
          (drive_one-Outlines o settings ws_id run d q.key found) p
  ]

  drive_all-ArePaced :
      (o : Uuid → Outside) (goal_ids : List Uuid) (d : Driver)
      → ArePaced first settings d
      → ArePaced first settings (drive_all o settings goal_ids d)
  unfolding drive_all
  drive_all-ArePaced o [] d p = p
  drive_all-ArePaced o (ws_id ∷ goal_ids) d p =
      drive_all-ArePaced o goal_ids (drive_one (o ws_id) settings ws_id d)
        (drive_one-ArePaced (o ws_id) ws_id d p)

  -- A tick of the driver keeps, for every run, that it stands under its own workspace, that no more
  -- reminders were sent than the settings allow, and that its iteration is at most the later of the
  -- given one of its launch and the cap.
  pub tick-ArePaced :
      (start : Outside) (o : Uuid → Outside) (d : Driver)
      → ArePaced first settings d
      → ArePaced first settings (tick start o settings d)
  unfolding tick
  tick-ArePaced start o d p =
      let d' = purged start d in
      drive_all-ArePaced o (map (λ e. e.0) (retain is_driven d'.goals)) d'
        (Map.All-retain (IsPaced first settings) (is_kept start) d.goals p)
