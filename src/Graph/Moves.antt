-- ===== src/Graph/Moves.antt =====
-- How the scheduler changes one node (jmux/src/goal/graph.rs).
use jmux.Base.{ℕ, ◌≡◌, refl, inl, inr, Bool, true, false, Option, none, some, Bool-cases, Uuid}
use jmux.Graph.Home.{Home, can_merge}
use jmux.Base.Text.{Text}
use jmux.Graph.{NodeState, running, review, done, GraphNode}
use jmux.Graph.InOrder.{Carries}
use jmux.Goal.{GoalStatus, in_progress, finished_goal, needs_attention, blocked_goal, GoalRun}
use jmux.Graph.Schedule.{
  World, is_pending, is_running, is_done, merged, finish, sync_node, mark_done, hold,
  conclude_merge, merge_branch, interrupt, follow_status, follow_run, follow, merge_conflict,
}

running_only : (s : NodeState) → is_running s ≡ true → s ≡ running
running_only s h =
    elim s as (λ s. is_running s ≡ true → s ≡ running) [ running ↦ λ _. refl | _ ↦ λ h. cc ] h

pub done_only : (s : NodeState) → is_done s ≡ true → s ≡ done
done_only s h = elim s as (λ s. is_done s ≡ true → s ≡ done) [ done ↦ λ _. refl | _ ↦ λ h. cc ] h

pub waits_not_done : (s : NodeState) → is_pending s ≡ true → is_done s ≡ false
waits_not_done s h =
    elim s as (λ s. is_pending s ≡ true → is_done s ≡ false) [ done ↦ λ h. cc | _ ↦ λ _. refl ] h

pub waits_not_running : (s : NodeState) → is_pending s ≡ true → is_running s ≡ false
waits_not_running s h =
    elim s as (λ s. is_pending s ≡ true → is_running s ≡ false) [
      | running ↦ λ h. cc
      | _ ↦ λ _. refl
    ]
      h

module _ {F : Type 0} where
  -- The states that a merge ends in.
  pub data Merged (n : GraphNode F) : GraphNode F → Type 0 where
    is_merged : Merged n (mark_done n)
    is_held : (e : Text) → Merged n (hold e n)

  merge_branch-Merged :
      (w : World F) (home : Home) (n : GraphNode F) (worktree branch : Option Text)
      → Merged n (merge_branch w home n worktree branch)
  unfolding merge_branch
  merge_branch-Merged w home n none branch = is_merged
  merge_branch-Merged w home n (some worktree) none = is_merged
  merge_branch-Merged w home n (some worktree) (some branch) =
      elim (Bool-cases (can_merge (w.base_status n.id) home.own_dir)) [
        | inr dirty ↦ rw (dirty) (is_held _)
        | inl clean ↦ rw (clean) (concluded (w.merge branch))
      ]
    where
      concluded : (o : Option Text) → Merged n (conclude_merge n o)
      concluded none = is_merged
      concluded (some e) = is_held (merge_conflict e)

  merged-Merged : (w : World F) (home : Home) (n : GraphNode F) → Merged n (merged w home n)
  unfolding merged
  merged-Merged w home n = merge_branch-Merged w home n n.worktree n.branch

  -- What following its goal run makes of a running node.
  pub data Followed (n : GraphNode F) : GraphNode F → Type 0 where
    is_lost : (why : Text) → Followed n (interrupt why n)
    is_going : (i : ℕ) → Followed n (record n { iteration = i })
    is_reviewed : (i : ℕ) → Followed n (record n { iteration = i; status = review })
    is_blocked : (i : ℕ) (e : Text) → Followed n (hold e (record n { iteration = i }))

  follow-Followed :
      (w : World F) (r : Bool) (n : GraphNode F) (ws : Option Uuid) → Followed n (follow w r n ws)
  follow-Followed w r n none = is_lost _
  follow-Followed w r n (some ws) = by_run (w.goals ws)
    where
      by_status :
          (i : ℕ) (s : GoalStatus) → Followed n (follow_status r (record n { iteration = i }) s)
      by_status i in_progress = is_going i
      by_status i (needs_attention d) = is_going i
      by_status i finished_goal = elim (Bool-cases r) [
        | inl reviewed ↦ rw (reviewed) (is_reviewed i)
        | inr direct ↦ rw (direct) (is_going i)
      ]
      by_status i (blocked_goal d) = is_blocked i d

      by_run : (o : Option GoalRun) → Followed n (follow_run r n o)
      by_run none = is_lost _
      by_run (some run) = by_status run.iteration run.status

  pub sync_node-other :
      (w : World F) (r : Bool) (n : GraphNode F) → is_running n.status ≡ false → sync_node w r n ≡ n
  unfolding sync_node
  sync_node-other w r n other = rw (other) refl

  Followed-Carries :
      (n n' : GraphNode F) → is_running n.status ≡ true → Followed n n' → Carries n n'
  Followed-Carries n _ here f = carries (running_only n.status here) f
    where
      carries : {n' : GraphNode F} → n.status ≡ running → Followed n n' → Carries n n'
      carries r (is_lost why) = record {
        ids = refl;
        deps = refl;
        finished = λ h. absurd (cc (h, r));
        started = λ h. cc (r);
      }
      carries r (is_going i) = record {
        ids = refl;
        deps = refl;
        finished = λ h. h;
        started = λ h. h;
      }
      carries r (is_reviewed i) = record {
        ids = refl;
        deps = refl;
        finished = λ h. absurd (cc (h, r));
        started = λ h. cc (r);
      }
      carries r (is_blocked i e) = record {
        ids = refl;
        deps = refl;
        finished = λ h. absurd (cc (h, r));
        started = λ h. cc (r);
      }

  pub sync_node-Carries : (w : World F) (r : Bool) (n : GraphNode F) → Carries n (sync_node w r n)
  unfolding sync_node
  sync_node-Carries w r n = elim (Bool-cases (is_running n.status)) [
    | inr other ↦ rw (other) record { ids = refl; deps = refl; finished = λ h. h; started = λ h. h }
    | inl here ↦ rw (here) (Followed-Carries n _ here (follow-Followed w r n n.workspace))
  ]

  pub sync_node-waits :
      (w : World F) (r : Bool) (n : GraphNode F)
      → is_running n.status ≡ true
      → is_pending (sync_node w r n).status ≡ false
  unfolding sync_node
  sync_node-waits w r n here =
      rw (here) (waits (running_only n.status here) (follow-Followed w r n n.workspace))
    where
      waits : {n' : GraphNode F} → n.status ≡ running → Followed n n' → is_pending n'.status ≡ false
      waits e (is_lost why) = refl
      waits e (is_going i) = cc (e)
      waits e (is_reviewed i) = refl
      waits e (is_blocked i d) = refl

  -- A node that is finished is done, or is blocked for its merge.
  pub data Finished (n : GraphNode F) : GraphNode F → Type 0 where
    was_done : is_done n.status ≡ true → Finished n n
    now_merged :
        (i : ℕ) (n' : GraphNode F)
        → is_done n.status ≡ false
        → Merged (record n { iteration = i }) n'
        → Finished n n'

  pub finish-Finished : (w : World F) (home : Home) (n : GraphNode F) → Finished n (finish w home n)
  unfolding finish
  finish-Finished w home n = elim (Bool-cases (is_done n.status)) [
    | inl already ↦ rw (already) (was_done already)
    | inr not_yet ↦ rw (not_yet) (now_merged _ _ not_yet (merged-Merged w home _))
  ]

  pub finish-id : (w : World F) (home : Home) (n : GraphNode F) → (finish w home n).id ≡ n.id
  finish-id w home n = of_Finished (finish-Finished w home n)
    where
      of_Finished : {n' : GraphNode F} → Finished n n' → n'.id ≡ n.id
      of_Finished (was_done h) = refl
      of_Finished (now_merged i _ h is_merged) = refl
      of_Finished (now_merged i _ h (is_held e)) = refl

  pub finish-deps : (w : World F) (home : Home) (n : GraphNode F) → (finish w home n).deps ≡ n.deps
  finish-deps w home n = of_Finished (finish-Finished w home n)
    where
      of_Finished : {n' : GraphNode F} → Finished n n' → n'.deps ≡ n.deps
      of_Finished (was_done h) = refl
      of_Finished (now_merged i _ h is_merged) = refl
      of_Finished (now_merged i _ h (is_held e)) = refl

  pub finish-done :
      (w : World F) (home : Home) (n : GraphNode F)
      → is_done n.status ≡ true
      → is_done (finish w home n).status ≡ true
  unfolding finish
  finish-done w home n h = rw (h) h

  pub finish-waits :
      (w : World F) (home : Home) (n : GraphNode F) → is_pending (finish w home n).status ≡ false
  finish-waits w home n = of_Finished (finish-Finished w home n)
    where
      of_Finished : {n' : GraphNode F} → Finished n n' → is_pending n'.status ≡ false
      of_Finished (was_done h) = cc (done_only n.status h)
      of_Finished (now_merged i _ h is_merged) = refl
      of_Finished (now_merged i _ h (is_held e)) = refl

  -- Following its run makes no node wait.
  pub sync_node-starts :
      (w : World F) (r : Bool) (n : GraphNode F)
      → is_pending (sync_node w r n).status ≡ true
      → is_pending n.status ≡ true
  sync_node-starts w r n h = elim (Bool-cases (is_running n.status)) [
    | inl here ↦ absurd (cc (h, sync_node-waits w r n here))
    | inr other ↦ rw (sync_node-other w r n other) at h
  ]
