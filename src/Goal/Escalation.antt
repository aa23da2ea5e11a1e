-- ===== src/Goal/Escalation.antt =====
-- What an escalation does to the run and the notifications (`escalate` of jmux/src/goal/mod.rs).
use jmux.Base.{
  ℕ, ◌≡◌, refl, ap, sym, ◌∙◌, arith, ◌&&◌, Bool, true, false, not, some, [], ◌∷◌, if◌then◌else◌,
  inl, inr, Bool-cases, Uuid,
}
use jmux.Base.Map
use jmux.Base.Text.{Text, codes, text_eq→eq}
use jmux.Goal.{
  GoalStatus, in_progress, finished_goal, needs_attention, blocked_goal, is_terminal, GoalRun,
}
use jmux.Goal.Registry.{
  Driver, Outside, escalate, escalated, is_escalated, is_notified, was_notified, rate_ok, notify,
  status_eq,
}
use jmux.Goal.Conditions.{written, told}
use jmux.Goal.Steps.{IsEscalated, is_told}

status_eq-eq : (s t : GoalStatus) → status_eq s t ≡ true → s ≡ t
unfolding status_eq
status_eq-eq in_progress in_progress e = refl
status_eq-eq in_progress finished_goal e = cc
status_eq-eq in_progress (needs_attention d) e = cc
status_eq-eq in_progress (blocked_goal d) e = cc
status_eq-eq finished_goal in_progress e = cc
status_eq-eq finished_goal finished_goal e = refl
status_eq-eq finished_goal (needs_attention d) e = cc
status_eq-eq finished_goal (blocked_goal d) e = cc
status_eq-eq (needs_attention c) in_progress e = cc
status_eq-eq (needs_attention c) finished_goal e = cc
status_eq-eq (needs_attention c) (needs_attention d) e = ap needs_attention (text_eq→eq c d e)
status_eq-eq (needs_attention c) (blocked_goal d) e = cc
status_eq-eq (blocked_goal c) in_progress e = cc
status_eq-eq (blocked_goal c) finished_goal e = cc
status_eq-eq (blocked_goal c) (needs_attention d) e = cc
status_eq-eq (blocked_goal c) (blocked_goal d) e = ap blocked_goal (text_eq→eq c d e)

-- The run after an escalation, as the steps write it.
abbrev alarmed : ℕ → GoalStatus → GoalRun → GoalRun
alarmed now status r = record r {
  status = status;
  last_escalation_epoch = if is_told now status r then now else r.last_escalation_epoch;
}

self_quiet : (b : Bool) → (b && not b) ≡ false
self_quiet true = refl
self_quiet false = refl

is_notified-is_told :
    (now : ℕ) (status : GoalStatus) (r : GoalRun) → is_notified now status r ≡ is_told now status r
unfolding is_notified is_escalated rate_ok
is_notified-is_told now status r = elim (Bool-cases (status_eq r.status status)) [
  | inl same ↦
      let end : is_terminal r.status ≡ is_terminal status =
        ap is_terminal (status_eq-eq r.status status same) in
      ground (arith, end)
  | inr other ↦ ground arith
]

escalated-alarmed :
    (now : ℕ) (status : GoalStatus) (r : GoalRun) → escalated now status r ≡ alarmed now status r
unfolding escalated
escalated-alarmed now status r = elim (Bool-cases (is_escalated now status r)) [
  | inl e ↦ rw (e, is_notified-is_told now status r) refl
  | inr e ↦
      let untold : is_told now status r ≡ false =
        unfold is_notified in sym (is_notified-is_told now status r) ∙ rw e refl in
      let same : r.status ≡ status =
        status_eq-eq r.status status (unfold is_escalated in ground arith) in
      rw (e, untold) (ap (λ s. record r { status = s }) same)
]

update-ext :
    (m : Map.Map GoalRun) (k : ℕ) (f g : GoalRun → GoalRun)
    → ((r : GoalRun) → f r ≡ g r)
    → Map.update m k f ≡ Map.update m k g
update-ext [] k f g h = refl
update-ext ((j, r) ∷ m) k f g h = rw (h r, update-ext m k f g h) refl

-- Writing by functions that agree is the same.
pub written-ext :
    (ws_id : Uuid) (f g : GoalRun → GoalRun) (d : Driver)
    → ((r : GoalRun) → f r ≡ g r)
    → written ws_id f d ≡ written ws_id g d
written-ext ws_id f g d h = ap (λ m. record d { goals = m }) (update-ext d.goals ws_id f g h)

pub escalate-IsEscalated :
    (o : Outside) (ws_id : Uuid) (status : GoalStatus) (message : Text) (d : Driver) (r : GoalRun)
    → Map.get d.goals ws_id ≡ some r
    → IsEscalated o ws_id status message d (escalate o ws_id status message d)
unfolding escalate notify was_notified
escalate-IsEscalated o ws_id status message d r found =
    let eq =
      written-ext ws_id (escalated o.now status) (alarmed o.now status) d
        (escalated-alarmed o.now status) in
    record {
      before = r;
      found = found;
      after =
          rw (found, is_notified-is_told o.now status r)
            (ap
              (λ x.
                if is_told o.now status r
                then told o ws_id (codes "Goal needs you") message x
                else x)
              eq);
    }
