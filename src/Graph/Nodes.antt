-- ===== src/Graph/Nodes.antt =====
-- What the checks of the nodes of a proposal say (jmux/src/goal/graph.rs).
use mathlib.Core.Path.{subst}
use jmux.Base.{
  ◌≡◌, ◌≤◌, refl, inl, inr, arith, ap, ◌∙◌, sym, true, false, none, some, List, [], ◌∷◌, Bool-cases,
  Option-cases,
}
use jmux.Base.Names.{times}
use jmux.Base.Text.{Text, text_eq, text_eq_refl}
use jmux.Graph.{ProposalNode}
use jmux.Graph.Kahn.{ids}
use jmux.Graph.Relax.{at_some, node_of, head_other}
use jmux.Graph.Space.{is_blank}
use jmux.Graph.Proposal.{
  ProposalError, invalid_id, empty_goal, valid_node_id, check_node, check_nodes,
}
use jmux.Graph.Deps.{
  AreSound, BlamesDeps, check_deps-AreSound, AreSound-check_deps, check_deps-blames, is_unknown,
  is_self, is_repeated,
}

module _ {F : Type 0} where
  -- A node that its check passes.
  pub record IsSound (known : List Text) (n : ProposalNode F) : Type 0 where
    pub valid : valid_node_id n.id ≡ true
    has_goal : is_blank n.goal ≡ false
    pub deps_sound : AreSound known n.id n.deps []

  -- What an error about a node is about.
  pub data BlamesNode (known : List Text) (n : ProposalNode F) : ProposalError → Type 0 where
    has_bad_id : valid_node_id n.id ≡ false → BlamesNode known n (invalid_id n.id)
    has_no_goal : is_blank n.goal ≡ true → BlamesNode known n (empty_goal n.id)
    has_bad_deps : (e : ProposalError) → BlamesDeps known n.id n.deps [] e → BlamesNode known n e

  check_node-IsSound :
      (known : List Text) (n : ProposalNode F) → check_node known n ≡ none → IsSound known n
  unfolding check_node
  check_node-IsSound known n h = record {
    valid = ground arith;
    has_goal = ground arith;
    deps_sound = check_deps-AreSound known n.id n.deps [] (ground arith);
  }

  check_node-none :
      (known : List Text) (n : ProposalNode F) → IsSound known n → check_node known n ≡ none
  unfolding check_node
  check_node-none known n s =
      rw (s.valid, s.has_goal) (AreSound-check_deps known n.id n.deps [] s.deps_sound)

  check_node-blames :
      (known : List Text) (n : ProposalNode F) (e : ProposalError)
      → check_node known n ≡ some e
      → BlamesNode known n e
  unfolding check_node
  check_node-blames known n e h = elim (Bool-cases (valid_node_id n.id)) [
    | inr bad ↦ the_error (invalid_id n.id) (rw (bad) at h) (has_bad_id bad)
    | inl valid ↦ elim (Bool-cases (is_blank n.goal)) [
      | inl blank ↦ the_error (empty_goal n.id) (rw (valid, blank) at h) (has_no_goal blank)
      | inr goal ↦ has_bad_deps e (check_deps-blames known n.id n.deps [] e (rw (valid, goal) at h))
    ]
  ]
    where
      the_error :
          (e' : ProposalError) → some e' ≡ some e → BlamesNode known n e' → BlamesNode known n e
      the_error e' same b = subst (λ o. at_some o Unit (BlamesNode known n)) same b

  pub check_nodes-IsSound :
      (known : List Text) (ns : List (ProposalNode F)) (x : Text) (n : ProposalNode F)
      → check_nodes known ns ≡ none
      → node_of ns x ≡ some n
      → IsSound known n
  unfolding check_nodes
  check_nodes-IsSound known [] x n h found = cc
  check_nodes-IsSound known (k ∷ ns) x n h found = elim (Option-cases (check_node known k)) [
    | inr (e, bad) ↦ absurd (ground arith)
    | inl good ↦ elim (Bool-cases (text_eq k.id x)) [
      | inl same ↦
          check_node-IsSound known n
            (sym (ap (λ o. at_some o none (check_node known)) (rw (same) at found)) ∙ good)
      | inr other ↦
          check_nodes-IsSound known ns x n (rw (good, check_nodes) at h) (rw (other) at found)
    ]
  ]

  check_nodes-none :
      (known : List Text) (ns : List (ProposalNode F))
      → ((x : Text) → times x (ids ns) ≤ 1)
      → ((x : Text) (n : ProposalNode F) → node_of ns x ≡ some n → IsSound known n)
      → check_nodes known ns ≡ none
  unfolding check_nodes
  check_nodes-none known [] once s = refl
  check_nodes-none known (k ∷ ns) once s =
      rw (check_node-none known k (s k.id k (rw (text_eq_refl k.id) refl)), check_nodes)
        (check_nodes-none known ns (λ x. omega (arith, once x))
          (λ x n found. s x n (ground (arith, head_other k ns x n (once x) found))))

  pub check_nodes-blames :
      (known : List Text) (ns : List (ProposalNode F)) (e : ProposalError)
      → ((x : Text) → times x (ids ns) ≤ 1)
      → check_nodes known ns ≡ some e
      → (x : Text) × (n : ProposalNode F) × (node_of ns x ≡ some n) × BlamesNode known n e
  unfolding check_nodes
  check_nodes-blames known [] e once h = cc
  check_nodes-blames known (k ∷ ns) e once h = elim (Option-cases (check_node known k)) [
    | inr (e', bad) ↦
        (k.id, k, rw (text_eq_refl k.id) refl, check_node-blames known k e (ground arith))
    | inl good ↦
        let (x, n, found, b) =
          check_nodes-blames known ns e (λ x. omega (arith, once x))
            (rw (good, check_nodes) at h) in
        (x, n, ground (arith, head_other k ns x n (once x) found), b)
  ]

  pub BlamesNode→not_IsSound :
      (known : List Text) (n : ProposalNode F) (e : ProposalError)
      → BlamesNode known n e
      → ¬ IsSound known n
  BlamesNode→not_IsSound known n e (has_bad_id h) s = cc (s.valid)
  BlamesNode→not_IsSound known n e (has_no_goal h) s = cc (s.has_goal)
  BlamesNode→not_IsSound known n e (has_bad_deps _ (is_unknown d d_in unknown)) s =
      cc (s.deps_sound.all_known d d_in)
  BlamesNode→not_IsSound known n e (has_bad_deps _ (is_self id_in)) s = cc (s.deps_sound.not_self)
  BlamesNode→not_IsSound known n e (has_bad_deps _ (is_repeated d twice)) s =
      omega (arith, s.deps_sound.no_repeat d)
