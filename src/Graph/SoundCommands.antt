-- ===== src/Graph/SoundCommands.antt =====
-- Approving, revising and resuming keep a graph sound (jmux/src/goal/graph.rs).
use jmux.Base.{
  ℕ, ◌==◌, ◌≡◌, refl, inl, inr, arith, ap, ◌∙◌, sym, Bool, true, false, Option, none, some, List,
  map, length, not, retain, not, Option-cases, Uuid,
}
use jmux.Graph.Home.{home_of}
use jmux.Base.Text.{Text}
use jmux.Graph.{NodeState, pending, review, done, blocked, interrupted, GraphNode, GraphSpec, node}
use jmux.Graph.Cap.{Calms, active-map, active-finish_all}
use jmux.Graph.Commands.{
  Reply, approve_graph, revise_graph, resume_graph, resume_node, resume_by, awaits_merge,
  awaits_merge_by, approve_by, revise_by, is_under_review,
}
use jmux.Graph.Grows.{waits_at}
use jmux.Graph.InOrder.{Carries, Advances-map, Advances-trans}
use jmux.Base.Names.{listed}
use jmux.Graph.Relax.{at_some}
use jmux.Graph.Lookup.{Once, node_ids, node-map, listed-retain}
use jmux.Graph.Order.{finish_all-Advances}
use jmux.Graph.Proposal.{Contents, Parsed, accepted, refused, crashed, unfinished, parse_proposal}
use jmux.Graph.Schedule.{World, is_active, is_pending, finish_all}
use jmux.Graph.Started.{parse_proposal-IsFresh}
use jmux.Graph.Sound.{Permutes, both_ways, SpecIsSound, IsSound-Advances, IsSound-fresh}

module _ {F : Type 0} where
  pub approve_graph-IsSound :
      (order : List Text → List Text) (contents : Contents F) (s : GraphSpec F)
      → Permutes order
      → SpecIsSound s
      → SpecIsSound (approve_graph order contents s).0
  unfolding approve_graph
  approve_graph-IsSound order contents s same h =
      both_ways (λ (r : Reply F). SpecIsSound r.0) (is_under_review s.status)
        (by_parse (parse_proposal order contents) refl) h
    where
      by_parse : (p : Parsed F) → parse_proposal order contents ≡ p → SpecIsSound (approve_by s p).0
      by_parse (accepted nodes) e =
          IsSound-fresh s.max_concurrency nodes (parse_proposal-IsFresh order contents nodes same e)
      by_parse (refused e') e = h
      by_parse crashed e = h
      by_parse unfinished e = h

  pub revise_graph-IsSound :
      (has_panel agent_runs : Uuid → Bool) (sent : Bool) (now : ℕ) (s : GraphSpec F)
      → SpecIsSound s
      → SpecIsSound (revise_graph has_panel agent_runs sent now s).0
  unfolding revise_graph
  revise_graph-IsSound has_panel agent_runs sent now s h =
      both_ways (λ (r : Reply F). SpecIsSound r.0) (is_under_review s.status)
        (by_ws s.orchestrator_workspace) h
    where
      by_ws : (o : Option Uuid) → SpecIsSound (revise_by has_panel agent_runs sent now s o).0
      by_ws none = h
      by_ws (some ws) =
          both_ways (λ (r : Reply F). SpecIsSound r.0) (not (has_panel ws)) h
            (both_ways (λ (r : Reply F). SpecIsSound r.0) (not (agent_runs ws)) h h)

  resume_node-Carries : (n : GraphNode F) → Carries n (resume_node n)
  unfolding resume_node
  resume_node-Carries n = by_state n.status refl
    where
      same : Carries n n
      same = record { ids = refl; deps = refl; finished = λ h. h; started = λ h. h }

      by_state : (s : NodeState) → n.status ≡ s → Carries n (resume_by n s)
      by_state interrupted e = record {
        ids = refl;
        deps = refl;
        finished = λ h. absurd (cc (h, e));
        started = λ h. cc (h);
      }
      by_state pending e = same
      by_state NodeState.running e = same
      by_state review e = same
      by_state done e = same
      by_state blocked e = same

  -- What waits for its merge does not wait for its turn.
  resume_node-waits :
      (n : GraphNode F) → awaits_merge n ≡ true → is_pending (resume_node n).status ≡ false
  unfolding resume_node
  resume_node-waits n h = by_state n.status refl h
    where
      by_state :
          (s : NodeState)
          → n.status ≡ s
          → awaits_merge_by s n.detail ≡ true
          → is_pending (resume_by n s).status ≡ false
      by_state blocked e h = cc (e)
      by_state interrupted e h = absurd (cc (h))
      by_state pending e h = absurd (cc (h))
      by_state NodeState.running e h = absurd (cc (h))
      by_state review e h = absurd (cc (h))
      by_state done e h = absurd (cc (h))

  resumed-waits :
      (nodes : List (GraphNode F)) (x : Text)
      → Once nodes
      → listed (node_ids (retain awaits_merge nodes)) x ≡ true
      → waits_at (map resume_node nodes) x ≡ false
  resumed-waits nodes x once h = elim (Option-cases (node nodes x)) [
    | inl absent ↦ ground (arith, node-map resume_node nodes x (λ n. (resume_node-Carries n).ids))
    | inr (n, found) ↦
        let chosen : awaits_merge n ≡ true =
          sym (ap (λ o. at_some o false awaits_merge) found)
          ∙ (sym (listed-retain awaits_merge nodes x once) ∙ h) in
        ground (
          arith,
          node-map resume_node nodes x (λ n. (resume_node-Carries n).ids),
          resume_node-waits n chosen,
        )
  ]

  resume_node-Calms : Calms {F = F} resume_node
  unfolding resume_node
  resume_node-Calms n = by_state n.status refl
    where
      by_state :
          (s : NodeState)
          → n.status ≡ s
          → is_active (resume_by n s).status ≡ true
          → is_active n.status ≡ true
      by_state interrupted e h = absurd (cc (h))
      by_state pending e h = h
      by_state NodeState.running e h = h
      by_state review e h = h
      by_state done e h = h
      by_state blocked e h = h

  pub resume_graph-IsSound :
      (w : World F) (s : GraphSpec F) → SpecIsSound s → SpecIsSound (resume_graph w s).0
  unfolding resume_graph
  resume_graph-IsSound w s h =
      let retries = node_ids (retain awaits_merge s.nodes) in
      let resumed = map resume_node s.nodes in
      both_ways (λ (r : Reply F). SpecIsSound r.0) (length s.nodes == 0) h
        (IsSound-Advances s.max_concurrency s.nodes (finish_all w (home_of s) retries resumed)
          (Advances-trans s.nodes resumed _ (Advances-map resume_node s.nodes resume_node-Carries) (
            finish_all-Advances w (home_of s) retries resumed
              (λ x x_in. resumed-waits s.nodes x h.once x_in)))
          (omega (
            arith,
            active-finish_all w (home_of s) retries resumed,
            active-map resume_node s.nodes resume_node-Calms,
          ))
          h)
