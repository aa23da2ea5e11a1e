-- ===== src/Graph/Plan.antt =====
-- `parse_proposal` accepts exactly the plans, and names a defect of all else
-- (jmux/src/goal/graph.rs).
use jmux.Base.{
  ◌==◌, ◌≡◌, ◌≤◌, ◌<◌, ◌↔◌, ◌⊎◌, refl, inl, inr, arith, ltb, none, some, List, length, map,
  Bool-cases, Option-cases,
}
use jmux.Base.Names.{
  times, listed-times, to_set, listed-to_set, length-to_set-eq, length-to_set-twice,
}
use jmux.Base.Text.{Text}
use jmux.Graph.{ProposalNode}
use jmux.Graph.Kahn.{ids, count_seen}
use jmux.Graph.Relax.{node_of}
use jmux.Graph.Acyclic.{IsChecked, Acyclic, length-ids, count_seen-Acyclic}
use jmux.Graph.Proposal.{
  proposal, ProposalError, no_nodes, too_many_nodes, duplicate_ids, has_cycle, Parsed, accepted,
  refused, check_nodes, plan_node, conclude, validate, parse_proposal,
}
use jmux.Graph.Nodes.{
  IsSound, BlamesNode, check_nodes-IsSound, check_nodes-blames, BlamesNode→not_IsSound,
}

module _ {F : Type 0} where
  -- A plan: 1 to 50 nodes with different identifiers, each of which is sound, and no cycle.
  pub record IsPlan (nodes : List (ProposalNode F)) : Type 0 where
    pub has_nodes : 0 < length nodes
    has_few : length nodes ≤ 50
    pub once : (x : Text) → times x (ids nodes) ≤ 1
    pub sound :
        (x : Text) (n : ProposalNode F) → node_of nodes x ≡ some n → IsSound (to_set (ids nodes)) n
    pub acyclic : Acyclic nodes

  -- The defect that an error names.
  pub data Blames (nodes : List (ProposalNode F)) : ProposalError → Type 0 where
    is_empty : length nodes ≡ 0 → Blames nodes no_nodes
    is_large : 50 < length nodes → Blames nodes too_many_nodes
    is_repeated : (x : Text) → 1 < times x (ids nodes) → Blames nodes duplicate_ids
    of_node :
        (e : ProposalError) (x : Text) (n : ProposalNode F)
        → node_of nodes x ≡ some n
        → BlamesNode (to_set (ids nodes)) n e
        → Blames nodes e
    is_cyclic : ¬ Acyclic nodes → Blames nodes has_cycle

  -- A plan is accepted; all else is refused for a defect that it has.
  abbrev pub Verdict : List (ProposalNode F) → Parsed F → Type 0
  Verdict nodes p =
      ((p ≡ accepted (map plan_node nodes)) × IsPlan nodes)
      ⊎ ((e : ProposalError) × (p ≡ refused e) × Blames nodes e)

  pub IsChecked-of :
      (nodes : List (ProposalNode F))
      → ((x : Text) → times x (ids nodes) ≤ 1)
      → ((x : Text) (n : ProposalNode F)
          → node_of nodes x ≡ some n
          → IsSound (to_set (ids nodes)) n)
      → IsChecked nodes
  IsChecked-of nodes once sound = record {
    once = once;
    once_deps = λ x n found d. omega (arith, (sound x n found).deps_sound.no_repeat d);
    known = λ x n found d dep. ground (
      arith,
      (sound x n found).deps_sound.all_known d dep,
      listed-to_set (ids nodes) d,
      listed-times (ids nodes) d,
    );
  }

  module _ (order : List Text → List Text)
      (same : (xs : List Text) (x : Text) → times x (order xs) ≡ times x xs) where
    -- The last check, when the others have passed.
    conclude-Verdict :
        (nodes : List (ProposalNode F))
        → 0 < length nodes
        → length nodes ≤ 50
        → ((x : Text) → times x (ids nodes) ≤ 1)
        → ((x : Text) (n : ProposalNode F)
            → node_of nodes x ≡ some n
            → IsSound (to_set (ids nodes)) n)
        → Verdict nodes (conclude nodes (count_seen order nodes))
    conclude-Verdict nodes has_nodes has_few once sound =
        let (seen, done, (full, acyclic)) =
          count_seen-Acyclic nodes (IsChecked-of nodes once sound) order same in
        elim (Bool-cases (seen == length nodes)) [
          | inl all ↦ inl (
            rw (done, all) refl,
            record {
              has_nodes = has_nodes;
              has_few = has_few;
              once = once;
              sound = sound;
              acyclic = full (ground arith);
            },
          )
          | inr missing ↦
              inr (has_cycle, rw (done, missing) refl, is_cyclic (λ a. ground (arith, acyclic a)))
        ]

    -- The checks of the nodes, when there are 1 to 50 with different identifiers.
    nodes-Verdict :
        (nodes : List (ProposalNode F))
        → 0 < length nodes
        → length nodes ≤ 50
        → ((x : Text) → times x (ids nodes) ≤ 1)
        → Verdict nodes (elim (check_nodes (to_set (ids nodes)) nodes) as (λ _. Parsed F) [
          | some e ↦ refused e
          | none ↦ conclude nodes (count_seen order nodes)
        ])
    nodes-Verdict nodes has_nodes has_few once =
        elim (Option-cases (check_nodes (to_set (ids nodes)) nodes)) [
          | inl good ↦ rw (good) (
              conclude-Verdict nodes has_nodes has_few once
                (λ x n found. check_nodes-IsSound (to_set (ids nodes)) nodes x n good found))
          | inr (e, bad) ↦
              let (x, n, found, b) = check_nodes-blames (to_set (ids nodes)) nodes e once bad in
              rw (bad) (inr (e, refl, of_node e x n found b))
        ]

    validate-Verdict : (nodes : List (ProposalNode F)) → Verdict nodes (validate order nodes)
    unfolding validate
    validate-Verdict nodes = elim (Bool-cases (length nodes == 0)) [
      | inl empty ↦ rw (empty) (inr (no_nodes, refl, is_empty (ground arith)))
      | inr some_nodes ↦ elim (Bool-cases (ltb 50 (length nodes))) [
        | inl large ↦ rw (some_nodes, large) (inr (too_many_nodes, refl, is_large (ground arith)))
        | inr few ↦ elim (Bool-cases (length (to_set (ids nodes)) == length nodes)) [
          | inr repeated ↦
              let (x, twice) =
                length-to_set-twice (ids nodes) (λ e. ground (arith, length-ids nodes)) in
              rw (some_nodes, few, repeated) (inr (duplicate_ids, refl, is_repeated x twice))
          | inl different ↦
              rw (some_nodes, few, different)
                (nodes-Verdict nodes (ground arith) (ground arith)
                  (λ x. length-to_set-eq (ids nodes) x (ground (arith, length-ids nodes))))
        ]
      ]
    ]

    -- A plan has no defect.
    Blames→not_IsPlan :
        (nodes : List (ProposalNode F)) (e : ProposalError) → Blames nodes e → ¬ IsPlan nodes
    Blames→not_IsPlan nodes e (is_empty h) p = omega (arith, p.has_nodes)
    Blames→not_IsPlan nodes e (is_large h) p = omega (arith, p.has_few)
    Blames→not_IsPlan nodes e (is_repeated x h) p = omega (arith, p.once x)
    Blames→not_IsPlan nodes e (of_node _ x n found b) p =
        BlamesNode→not_IsSound (to_set (ids nodes)) n e b (p.sound x n found)
    Blames→not_IsPlan nodes e (is_cyclic h) p = h p.acyclic

    -- For every list of nodes `parse_proposal` either accepts it, and it is a plan, or refuses it
    -- with an error that names a defect it has: no nodes, more than 50, an identifier that stands
    -- twice or is invalid, a blank goal, a dependency that is unknown, on the node itself or listed
    -- twice, or no ranking of the nodes. The map of indegrees is visited once per key.
    pub parse_proposal-Verdict :
        (nodes : List (ProposalNode F)) → Verdict nodes (parse_proposal order (proposal nodes))
    unfolding parse_proposal
    parse_proposal-Verdict nodes = validate-Verdict nodes

    -- `parse_proposal` accepts a proposal with its nodes, all pending, exactly if it is a plan: 1
    -- to 50 nodes with different, valid identifiers and goals that are not blank, whose
    -- dependencies are other nodes, none listed twice, and can be ranked so that each comes before
    -- its dependents. The map of indegrees may be visited in any order, once per key.
    pub parse_proposal-IsPlan :
        (nodes : List (ProposalNode F))
        → (parse_proposal order (proposal nodes) ≡ accepted (map plan_node nodes)) ↔ IsPlan nodes
    unfolding parse_proposal
    parse_proposal-IsPlan nodes = elim (validate-Verdict nodes) [
      | inl (yes_it_is, plan) ↦ ((λ _. plan), (λ _. yes_it_is))
      | inr (e, no_it_is, b) ↦
          ((λ h. absurd (cc (h, no_it_is))), (λ plan. absurd (Blames→not_IsPlan nodes e b plan)))
    ]
