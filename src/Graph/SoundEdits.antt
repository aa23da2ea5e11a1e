-- ===== src/Graph/SoundEdits.antt =====
-- Accepting, continuing, edits and a restart keep a graph sound (jmux/src/goal/graph.rs).
use jmux.Base.{
  ℕ, ◌≡◌, refl, inl, inr, arith, true, false, Option, none, some, List, map, Bool-cases, Uuid,
}
use jmux.Graph.Home.{home_of}
use jmux.Base.Text.{Text, text_eq}
use jmux.Graph.{NodeState, pending, review, done, GraphNode, GraphSpec, node, update_node}
use jmux.Graph.Cap.{Calms, active-map, active-update_node, finish-Calms}
use jmux.Graph.Commands.{
  Reply, accept_node, continue_node, update_node_goal, update_node_position, reload, interrupt_node,
  continue_review, run_link, accept_by, continue_by, write_goal, write_pos,
}
use jmux.Graph.InOrder.{Carries, Advances-map, Advances-update_node}
use jmux.Graph.Space.{is_blank}
use jmux.Base.{is_some}
use jmux.Graph.Order.{finish_node-Advances}
use jmux.Goal.{GraphLink}
use jmux.Graph.Schedule.{World, is_done, is_active, is_pending, finish_node, is_review, finish}
use jmux.Graph.Sound.{both_ways, WasLaunched, IsSound, SpecIsSound, IsSound-Advances}

review_only : (s : NodeState) → is_review s ≡ true → s ≡ review
review_only s h =
    elim s as (λ s. is_review s ≡ true → s ≡ review) [ review ↦ λ _. refl | _ ↦ λ h. cc ] h

active_started : (s : NodeState) → is_active s ≡ true → is_pending s ≡ false
active_started s h =
    elim s as (λ s. is_active s ≡ true → is_pending s ≡ false) [ pending ↦ λ h. cc | _ ↦ λ _. refl ]
      h

active_not_done : (s : NodeState) → is_active s ≡ true → is_done s ≡ false
active_not_done s h =
    elim s as (λ s. is_active s ≡ true → is_done s ≡ false) [ done ↦ λ h. cc | _ ↦ λ _. refl ] h

module _ {F : Type 0} where
  -- Writing to one node, which does not start it.
  one-IsSound :
      (f : GraphNode F → GraphNode F) (limit : ℕ) (nodes : List (GraphNode F)) (id : Text)
      → ((n : GraphNode F) → Carries n (f n))
      → Calms f
      → IsSound limit nodes
      → IsSound limit (update_node nodes id f)
  one-IsSound f limit nodes id c calms h =
      IsSound-Advances limit nodes (update_node nodes id f)
        (Advances-update_node f nodes id (λ n. (c n).ids) (λ n. (c n).deps)
          (λ n found d. (c n).finished d) (λ n found p. inl ((c n).started p)))
        (active-update_node f nodes id calms) h

  continue_review-Carries : (n : GraphNode F) → Carries n (continue_review n)
  unfolding continue_review
  continue_review-Carries n = elim (Bool-cases (is_review n.status)) [
    | inr other ↦ rw (other) record { ids = refl; deps = refl; finished = λ h. h; started = λ h. h }
    | inl here ↦ rw (here) record {
      ids = refl;
      deps = refl;
      finished = λ h. absurd (cc (h, review_only n.status here));
      started = λ h. cc (review_only n.status here);
    }
  ]

  continue_review-Calms : Calms {F = F} continue_review
  unfolding continue_review
  continue_review-Calms n h = elim (Bool-cases (is_review n.status)) [
    | inr other ↦ rw (other) at h
    | inl here ↦ cc (review_only n.status here)
  ]

  pub accept_node-IsSound :
      (w : World F) (ws : Uuid) (s : GraphSpec F)
      → WasLaunched w ws s
      → SpecIsSound s
      → SpecIsSound (accept_node w ws s)
  unfolding accept_node finish_node
  accept_node-IsSound w ws s launched h = by_link (run_link (w.goals ws)) refl
    where
      by_link : (o : Option GraphLink) → run_link (w.goals ws) ≡ o → SpecIsSound (accept_by w s o)
      by_link none e = h
      by_link (some link) e =
          both_ways SpecIsSound (text_eq link.graph s.name)
            (IsSound-Advances s.max_concurrency s.nodes
              (finish_node w (home_of s) link.node s.nodes)
              (finish_node-Advances w (home_of s) s.nodes link.node (launched link e))
              (active-update_node (finish w (home_of s)) s.nodes link.node
                (finish-Calms w (home_of s)))
              h)
            h

  pub continue_node-IsSound :
      (w : World F) (ws : Uuid) (s : GraphSpec F)
      → SpecIsSound s
      → SpecIsSound (continue_node w ws s)
  unfolding continue_node
  continue_node-IsSound w ws s h = by_link (run_link (w.goals ws))
    where
      by_link : (o : Option GraphLink) → SpecIsSound (continue_by s o)
      by_link none = h
      by_link (some link) =
          both_ways SpecIsSound (text_eq link.graph s.name)
            (one-IsSound continue_review s.max_concurrency s.nodes link.node continue_review-Carries
              continue_review-Calms h)
            h

  pub update_node_goal-IsSound :
      (id goal_text : Text) (s : GraphSpec F)
      → SpecIsSound s
      → SpecIsSound (update_node_goal id goal_text s).0
  unfolding update_node_goal
  update_node_goal-IsSound id goal_text s h =
      both_ways (λ (r : Reply F). SpecIsSound r.0) (is_blank goal_text) h
        (both_ways (λ (r : Reply F). SpecIsSound r.0) (is_some (node s.nodes id))
          (one-IsSound (write_goal goal_text) s.max_concurrency s.nodes id
            (λ n. record { ids = refl; deps = refl; finished = λ h. h; started = λ h. h })
            (λ n h. h) h)
          h)

  pub update_node_position-IsSound :
      (id : Text) (at : F × F) (s : GraphSpec F)
      → SpecIsSound s
      → SpecIsSound (update_node_position id at s)
  unfolding update_node_position
  update_node_position-IsSound id at s h =
      one-IsSound (write_pos at) s.max_concurrency s.nodes id
        (λ n. record { ids = refl; deps = refl; finished = λ h. h; started = λ h. h }) (λ n h. h) h

  interrupt_node-Carries : (n : GraphNode F) → Carries n (interrupt_node n)
  unfolding interrupt_node
  interrupt_node-Carries n = elim (Bool-cases (is_active n.status)) [
    | inr other ↦ rw (other) record { ids = refl; deps = refl; finished = λ h. h; started = λ h. h }
    | inl here ↦ rw (here) record {
      ids = refl;
      deps = refl;
      finished = λ h. absurd (ground (arith, active_not_done n.status));
      started = λ _. active_started n.status here;
    }
  ]

  interrupt_node-Calms : Calms {F = F} interrupt_node
  unfolding interrupt_node
  interrupt_node-Calms n h = elim (Bool-cases (is_active n.status)) [
    | inr other ↦ rw (other) at h
    | inl here ↦ here
  ]

  pub reload-IsSound : (s : GraphSpec F) → SpecIsSound s → SpecIsSound (reload s)
  unfolding reload
  reload-IsSound s h =
      IsSound-Advances s.max_concurrency s.nodes (map interrupt_node s.nodes)
        (Advances-map interrupt_node s.nodes interrupt_node-Carries)
        (active-map interrupt_node s.nodes interrupt_node-Calms) h
