-- ===== src/Graph/Approved.antt =====
-- An approved plan is worked off, where all goes well (jmux/src/goal/graph.rs).
use jmux.Base.{
  ℕ, suc, ◌≡◌, ◌≤◌, ◌<◌, refl, inl, inr, arith, ap, ◌∙◌, sym, true, false, none, some, List, [],
  ◌∷◌, map, length, Option-cases, if_true,
}
use jmux.Base.Names.{listed}
use jmux.Base.Text.{Text}
use jmux.Graph.{GraphState, complete, GraphNode, GraphSpec, ProposalNode, node}
use jmux.Graph.Commands.{is_under_review, approve_by, approve_graph}
use jmux.Graph.Kahn.{ids}
use jmux.Graph.Lookup.{node_found}
use jmux.Graph.Oblige.{Obliges}
use jmux.Graph.Plan.{IsPlan, parse_proposal-IsPlan}
use jmux.Graph.Proposal.{proposal, plan_node}
use jmux.Graph.Relax.{at_some, node_of}
use jmux.Graph.Schedule.{World}
use jmux.Graph.Sound.{Permutes}
use jmux.Graph.Waiting.{waiting}
use jmux.Base.Names.{listed-times, listed-to_set}
use jmux.Graph.Commands.{Reply}
use jmux.Graph.Live.{IsLive, ticks, live-finishes}
use jmux.Graph.Started.{node_ids-plan, waits_at-plan}

some_eq : {A : Type 0} {a b : A} → some a ≡ some b → a ≡ b
some_eq {a = a} h = ap (λ o. at_some o a (λ x. x)) h

module _ {F : Type 0} where
  node-plan :
      (ns : List (ProposalNode F)) (x : Text)
      → node (map plan_node ns) x ≡ at_some (node_of ns x) none (λ p. some (plan_node p))
  unfolding plan_node
  node-plan [] x = refl
  node-plan (p ∷ ns) x = ground (arith, node-plan ns x)

  waiting-plan : (ns : List (ProposalNode F)) → waiting (map plan_node ns) ≤ length ns
  unfolding plan_node
  waiting-plan [] = omega arith
  waiting-plan (n ∷ ns) = omega (arith, waiting-plan ns)

  -- A node of the graph, and the node of the plan that it was.
  planned :
      (ns : List (ProposalNode F)) (x : Text) (n : GraphNode F)
      → node (map plan_node ns) x ≡ some n
      → (p : ProposalNode F) × (node_of ns x ≡ some p) × (n ≡ plan_node p)
  planned ns x n found = elim (Option-cases (node_of ns x)) [
    | inl absent ↦ absurd (ground (arith, node-plan ns x))
    | inr (p, p_found) ↦ (p, p_found, some_eq (sym found ∙ (node-plan ns x ∙ rw (p_found) refl)))
  ]

  planned-deps :
      (n : GraphNode F) (p : ProposalNode F) (d : Text)
      → n ≡ plan_node p
      → listed n.deps d ≡ true
      → listed p.deps d ≡ true
  unfolding plan_node
  planned-deps n p d same h = ap (λ (n : GraphNode F). listed n.deps d) (sym same) ∙ h

  length-plan : (ns : List (ProposalNode F)) → length (map plan_node ns) ≡ length ns
  length-plan [] = refl
  length-plan (n ∷ ns) = omega (arith, length-plan ns)

  plan-IsLive :
      (s : GraphSpec F) (ns : List (ProposalNode F))
      → IsPlan ns
      → s.review_iterations ≡ false
      → 0 < s.max_concurrency
      → IsLive (record s { nodes = map plan_node ns; status = GraphState.running })
  plan-IsLive s ns p direct cap = record {
    works = refl;
    has_nodes = ground (arith, p.has_nodes, length-plan ns);
    once = λ x. rw (node_ids-plan ns) (p.once x);
    ordered = record {
      rank = p.acyclic.0;
      below = λ x n found d dep.
          let (k, k_found, same) = planned ns x n found in
          p.acyclic.1 x k k_found d (planned-deps n k d same dep);
      known = λ x n found d dep.
          let (k, k_found, same) = planned ns x n found in
          node_found (map plan_node ns) d (
            rw (node_ids-plan ns) (
              ground (
                arith,
                (p.sound x k k_found).deps_sound.all_known d (planned-deps n k d same dep),
                listed-to_set (ids ns) d,
                listed-times (ids ns) d,
              )));
    };
    well = λ x n found. inl (waits_at-plan ns x n found);
    unreviewed = direct;
    cap = cap;
  }

  approved :
      (order : List Text → List Text) (ns : List (ProposalNode F)) (s : GraphSpec F)
      → Permutes order
      → IsPlan ns
      → is_under_review s.status ≡ true
      → (approve_graph order (proposal ns) s).0
        ≡ record s { nodes = map plan_node ns; status = GraphState.running }
  unfolding approve_graph
  approved order ns s same plan reviewed =
      ap (λ (r : Reply F). r.0) (if_true (is_under_review s.status) _ _ reviewed)
      ∙ ap (λ p. (approve_by s p).0) ((parse_proposal-IsPlan order same ns).1 plan)

  -- If the proposal is a plan and the graph awaits or reviews its plan, has no review of iterations
  -- and allows at least one node at once, then after approval one tick more than there are nodes
  -- completes the graph, in worlds where every goal run is done, every worktree, launch and merge
  -- succeeds and the checkout is clean; the map of indegrees is visited once per key.
  pub approve_graph-finishes :
      (order : List Text → List Text) (ns : List (ProposalNode F)) (s : GraphSpec F)
      (w : ℕ → World F)
      → Permutes order
      → IsPlan ns
      → is_under_review s.status ≡ true
      → s.review_iterations ≡ false
      → 0 < s.max_concurrency
      → ((i : ℕ) → Obliges (w i))
      → (ticks (suc (length ns)) w (approve_graph order (proposal ns) s).0).status ≡ complete
  approve_graph-finishes order ns s w same plan reviewed direct cap o =
      rw (approved order ns s same plan reviewed) (
        live-finishes (length ns) w
          (record s { nodes = map plan_node ns; status = GraphState.running }) o
          (plan-IsLive s ns plan direct cap) (waiting-plan ns))
