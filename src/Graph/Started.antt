-- ===== src/Graph/Started.antt =====
-- The nodes of a plan that is started (jmux/src/goal/graph.rs).
use jmux.Base.{◌≡◌, refl, inl, inr, arith, ap, true, some, List, [], ◌∷◌, map, Bool-cases}
use jmux.Base.Names.{times}
use jmux.Base.Text.{Text, text_eq}
use jmux.Graph.{ProposalNode, GraphNode, node}
use jmux.Graph.Kahn.{ids}
use jmux.Graph.Grows.{InOrder}
use jmux.Graph.Lookup.{Once, node_ids}
use jmux.Graph.Plan.{parse_proposal-Verdict}
use jmux.Graph.Proposal.{
  Contents, unreadable, malformed, proposal, Parsed, accepted, plan_node, parse_proposal,
}
use jmux.Graph.Schedule.{is_pending}
use jmux.Graph.Ticks.{active}

module _ {F : Type 0} where
  pub node_ids-plan : (ns : List (ProposalNode F)) → node_ids (map plan_node ns) ≡ ids ns
  unfolding plan_node
  node_ids-plan [] = refl
  node_ids-plan (n ∷ ns) = ap (◌∷◌ n.id) (node_ids-plan ns)

  pub waits_at-plan :
      (ns : List (ProposalNode F)) (x : Text) (n : GraphNode F)
      → node (map plan_node ns) x ≡ some n
      → is_pending n.status ≡ true
  unfolding plan_node
  waits_at-plan [] x n h = cc
  waits_at-plan (k ∷ ns) x n h = elim (Bool-cases (text_eq k.id x)) [
    | inl here ↦ ground arith
    | inr later ↦ waits_at-plan ns x n (rw (later) at h)
  ]

  active-plan : (ns : List (ProposalNode F)) → active (map plan_node ns) ≡ 0
  unfolding plan_node
  active-plan [] = refl
  active-plan (n ∷ ns) = active-plan ns

  -- A started plan: different identifiers, in order, and nothing runs.
  pub record IsFresh (nodes : List (GraphNode F)) : Type 0 where
    pub once : Once nodes
    pub in_order : InOrder nodes
    pub calm : active nodes ≡ 0

  accepted_plan :
      (p : Parsed F) (ns : List (ProposalNode F)) (nodes : List (GraphNode F))
      → p ≡ accepted nodes
      → p ≡ accepted (map plan_node ns)
      → nodes ≡ map plan_node ns
  accepted_plan p ns nodes a b = cc

  pub parse_proposal-IsFresh :
      (order : List Text → List Text) (contents : Contents F) (nodes : List (GraphNode F))
      → ((xs : List Text) (x : Text) → times x (order xs) ≡ times x xs)
      → parse_proposal order contents ≡ accepted nodes
      → IsFresh nodes
  unfolding parse_proposal
  parse_proposal-IsFresh order (unreadable e) nodes same h = absurd (cc (h))
  parse_proposal-IsFresh order (malformed e) nodes same h = absurd (cc (h))
  parse_proposal-IsFresh order (proposal ns) nodes same h =
      elim (parse_proposal-Verdict order same ns) [
        | inr (e, refusal, b) ↦ absurd (cc (h, refusal))
        | inl (acceptance, plan) ↦
            let is_plan =
              accepted_plan (parse_proposal order (proposal ns)) ns nodes h acceptance in
            rw (is_plan) record {
              once = λ x. rw (node_ids-plan ns) (plan.once x);
              in_order = λ x waits n found. absurd (ground (arith, waits_at-plan ns x n found));
              calm = active-plan ns;
            }
      ]
