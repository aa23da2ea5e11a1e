-- ===== src/Graph/Start.antt =====
-- The indegrees before the first round of the cycle check (jmux/src/goal/graph.rs).
use jmux.Base.{
  ◌+◌, ◌≡◌, ◌≤◌, refl, inl, inr, arith, ap, none, some, List, [], ◌∷◌, length, Bool-cases,
  Option-cases,
}
use jmux.Base.Names.{times}
use jmux.Base.Text.{Text, text_eq, text_eq_refl, text_eq→eq}
use jmux.Graph.{ProposalNode}
use jmux.Graph.Kahn.{Indegrees, write, ids, enter_all, add_deps}
use jmux.Graph.Relax.{at_some, node_of, head_other, head_only}

module _ {F : Type 0} where
  -- Each identifier is entered with 0, and what was there stays.
  pub enter_all_lem :
      (ns : List (ProposalNode F)) (m : Indegrees) (x : Text)
      → enter_all ns m x ≡ at_some (m x) (at_some (node_of ns x) none (λ _. some 0)) some
  unfolding enter_all
  enter_all_lem [] m x = ground (arith, Option-cases (m x))
  enter_all_lem (k ∷ ns) m x = elim (Option-cases (m k.id)) [
    | inl absent ↦
        rw (absent, enter_all)
          (elim (Bool-cases (text_eq k.id x)) [
            | inl same ↦
                ground (arith, enter_all_lem ns (write m k.id 0) x, ap m (text_eq→eq k.id x same))
            | inr other ↦ ground (arith, enter_all_lem ns (write m k.id 0) x)
          ])
    | inr (d, present) ↦
        rw (present, enter_all)
          (elim (Bool-cases (text_eq k.id x)) [
            | inl same ↦ ground (arith, enter_all_lem ns m x, ap m (text_eq→eq k.id x same))
            | inr other ↦ ground (arith, enter_all_lem ns m x)
          ])
  ]

  -- Each identifier then has the number of its node's dependencies.
  pub add_deps_lem :
      (ns : List (ProposalNode F)) (m : Indegrees)
      → ((x : Text) → times x (ids ns) ≤ 1)
      → ((x : Text) (n : ProposalNode F) → node_of ns x ≡ some n → m x ≡ some 0)
      → (m' : Indegrees) × (add_deps ns m ≡ some m')
        × ((x : Text) → m' x ≡ at_some (node_of ns x) (m x) (λ n. some (length n.deps)))
  unfolding add_deps
  add_deps_lem [] m once zeros = (m, refl, λ x. refl)
  add_deps_lem (k ∷ ns) m once zeros =
      let (m', e, degrees) =
        add_deps_lem ns (write m k.id (0 + length k.deps)) (λ x. omega (arith, once x))
          (λ x n h. rw (head_other k ns x n (once x) h) (zeros x n (later x n h))) in
      (
        m',
        rw (zeros k.id k (rw (text_eq_refl k.id) refl), add_deps) e,
        λ x. elim (Bool-cases (text_eq k.id x)) [
          | inl same ↦ ground (arith, degrees x, head_only k ns x (once x) same)
          | inr other ↦ ground (arith, degrees x)
        ],
      )
    where
      later : (x : Text) (n : ProposalNode F) → node_of ns x ≡ some n → node_of (k ∷ ns) x ≡ some n
      later x n h = ground (arith, head_other k ns x n (once x) h)
