-- ===== src/Goal/Ended.antt =====
-- No run ends unseen: the driver (jmux/src/goal/mod.rs) notifies its workspace.
use jmux.Base.{
  ℕ, ◌+◌, ◌≡◌, refl, ap, sym, ◌∙◌, arith, Bool, true, false, Option, none, some, List, [], ◌∷◌,
  ◌++◌, Uuid, get_last?,
}
use jmux.Base.Map
use jmux.Base.Text.{Text, codes}
use jmux.Goal.{
  GoalStatus, needs_attention, blocked_goal, finished_goal, in_progress, is_terminal, GoalRun,
  GoalSettings,
}
use jmux.Goal.Registry.{
  Driver, Outside, set_run, escalate, escalated, is_escalated, is_notified, was_notified, notify,
  next_iteration, type_into, next_prompt, status_eq,
}
use jmux.Goal.Messages.{reported_blocked}
use jmux.Goal.Drive.{nudged, finish_run, drive_one}
use jmux.Goal.Outline.{
  Counts, same, more, Outlines, counts, drops, finishes, iterates, escalates, reminds,
}
use jmux.Goal.Outline.{drive_one-Outlines}
use jmux.Goal.Paced.{escalate-goals}
use jmux.Notifications.{Notification, NotificationStore, add_with_retain, make_room}

-- The newest notification is an unread one of the workspace.
pub record IsSeen (ws_id : Uuid) (store : NotificationStore ℕ) : Type 0 where
  pub newest : Notification ℕ
  pub stored : get_last? store ≡ some newest
  its_workspace : newest.source_workspace_id ≡ some ws_id
  pub unread : newest.is_read ≡ false

get_last?-append {ℓ} : {A : Type ℓ} (xs : List A) (x : A) → get_last? (xs ++ x ∷ []) ≡ some x
get_last?-append [] x = refl
get_last?-append (y ∷ []) x = refl
get_last?-append (y ∷ z ∷ xs) x = get_last?-append (z ∷ xs) x

notify-IsSeen :
    (o : Outside) (ws_id : Uuid) (title body : Text) (d : Driver)
    → IsSeen ws_id (notify o ws_id title body d).notifications
unfolding notify add_with_retain
notify-IsSeen o ws_id title body d = record {
  newest = _;
  stored = get_last?-append (make_room d.notifications) _;
  its_workspace = refl;
  unread = refl;
}

-- Whether the run of a workspace has ended.
abbrev pub has_ended : Option GoalRun → Bool
has_ended none = false
has_ended (some run) = is_terminal run.status

Counts-ended :
    {ws_id : Uuid} {d d' : Driver} (run : GoalRun)
    → Counts ws_id d d'
    → Map.get d.goals ws_id ≡ some run
    → (r : GoalRun) × (Map.get d'.goals ws_id ≡ some r)
      × (is_terminal r.status ≡ is_terminal run.status)
Counts-ended run same found = (run, found, refl)
Counts-ended {ws_id} run (more {d1} c g k) found =
    let (r, here, ended) = Counts-ended run c found in
    (g r, Map.get-update_self d1.goals ws_id g here, k.same_end r ∙ ended)

status_eq-end : (s t : GoalStatus) → status_eq s t ≡ true → is_terminal s ≡ is_terminal t
unfolding status_eq
status_eq-end in_progress t e = ground arith
status_eq-end finished_goal t e = ground arith
status_eq-end (needs_attention d) t e = ground arith
status_eq-end (blocked_goal d) t e = ground arith

-- An alarm that ends a run is notified, whatever the rate.
escalated-ended :
    (now : ℕ) (status : GoalStatus) (run : GoalRun)
    → is_terminal run.status ≡ false
    → is_terminal (escalated now status run).status ≡ true
    → is_notified now status run ≡ true
unfolding escalated is_notified is_escalated
escalated-ended now status run live ended = ground (arith, status_eq-end run.status status)

escalate-IsSeen :
    (o : Outside) (ws_id : Uuid) (status : GoalStatus) (message : Text) (d : Driver) (run : GoalRun)
    → Map.get d.goals ws_id ≡ some run
    → is_terminal run.status ≡ false
    → has_ended (Map.get (escalate o ws_id status message d).goals ws_id) ≡ true
    → IsSeen ws_id (escalate o ws_id status message d).notifications
unfolding escalate was_notified
escalate-IsSeen o ws_id status message d run found live ended =
    let now : Map.get (escalate o ws_id status message d).goals ws_id
        ≡ some (escalated o.now status run) =
      ap (λ m. Map.get m ws_id) (escalate-goals o ws_id status message d)
      ∙ Map.get-update_self d.goals ws_id (escalated o.now status) found in
    let told : is_notified o.now status run ≡ true =
      escalated-ended o.now status run live (ap has_ended (sym now) ∙ ended) in
    rw (found, told)
      (notify-IsSeen o ws_id (codes "Goal needs you") message
        (set_run ws_id (escalated o.now status) d))

Outlines-IsSeen :
    (o : Outside) (settings : GoalSettings) (ws_id : Uuid) (run : GoalRun) (d d' : Driver)
    → Map.get d.goals ws_id ≡ some run
    → is_terminal run.status ≡ false
    → Outlines o settings ws_id run d d'
    → has_ended (Map.get d'.goals ws_id) ≡ true
    → IsSeen ws_id d'.notifications
unfolding notify
Outlines-IsSeen o settings ws_id run d d' found live (counts c) ended =
    let (r, here, kept) = Counts-ended run c found in
    let no : false ≡ true = sym live ∙ sym kept ∙ ap has_ended (sym here) ∙ ended in cc
Outlines-IsSeen o settings ws_id run d d' found live (drops gone e) ended =
    let removed : has_ended (Map.get d'.goals ws_id) ≡ false =
      rw (e, Map.get-remove_self d.goals ws_id) refl in
    cc
Outlines-IsSeen o settings ws_id run d d' found live (finishes outcome title body report says e)
      ended =
    rw e (notify-IsSeen o ws_id title body (set_run ws_id finish_run d))
Outlines-IsSeen o settings ws_id run d d' found live
      (iterates outcome title body report says below open_pane e) ended =
    rw e (
      notify-IsSeen o ws_id title body (
        set_run ws_id (next_iteration (run.iteration + 1))
          (type_into run.panel_id (next_prompt (reported_blocked run) run) d)))
Outlines-IsSeen o settings ws_id run d d' found live (escalates {d1} status message c e) ended =
    let (r, here, kept) = Counts-ended run c found in
    rw e (
      escalate-IsSeen o ws_id status message d1 r here (kept ∙ live)
        (ap (λ x. has_ended (Map.get x.goals ws_id)) (sym e) ∙ ended))
Outlines-IsSeen o settings ws_id run d d' found live (reminds {d1} text c quiet alive left e)
      ended =
    let (r, here, kept) = Counts-ended run c found in
    let reminded : has_ended (Map.get d'.goals ws_id) ≡ is_terminal r.status =
      rw (e, Map.get-update_self d1.goals ws_id nudged here) refl in
    let no : false ≡ true = sym live ∙ sym kept ∙ sym reminded ∙ ended in cc

-- Where a pass ends a run that had not ended and is registered under its workspace, the newest
-- notification is an unread one of that workspace.
pub drive_one-IsSeen :
    (o : Outside) (settings : GoalSettings) (ws_id : Uuid) (run : GoalRun) (d : Driver)
    → run.workspace_id ≡ ws_id
    → Map.get d.goals ws_id ≡ some run
    → is_terminal run.status ≡ false
    → has_ended (Map.get (drive_one o settings ws_id d).goals ws_id) ≡ true
    → IsSeen ws_id (drive_one o settings ws_id d).notifications
drive_one-IsSeen o settings ws_id run d key found live ended =
    Outlines-IsSeen o settings ws_id run d (drive_one o settings ws_id d) found live
      (drive_one-Outlines o settings ws_id run d key found) ended
