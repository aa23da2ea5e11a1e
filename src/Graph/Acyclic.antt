-- ===== src/Graph/Acyclic.antt =====
-- The cycle check of `parse_proposal` is right and ends (jmux/src/goal/graph.rs).
use jmux.Base.{
  ℕ, zero, suc, ◌≡◌, ◌≤◌, ◌<◌, ◌↔◌, refl, inl, inr, arith, ap, ◌∙◌, sym, true, false, none, some,
  List, [], ◌∷◌, length, retain, if◌then◌else◌, Bool-cases, Option-cases,
}
use jmux.Base.Names.{times, listed, listed-times, times-retain, length-le-of_times}
use jmux.Base.Text.{Text, text_eq, text_eq→eq}
use jmux.Graph.{ProposalNode}
use jmux.Graph.Kahn.{Indegrees, finished, ids, is_zero, enter_all, count_seen}
use jmux.Graph.Relax.{at_some, node_of, node_of-times, times-node_of}
use jmux.Graph.Rounds.{Supported, start, next, Round, Settled, drain-finished}
use jmux.Graph.Start.{enter_all_lem, add_deps_lem}
use jmux.Graph.Unmet.{unmet, unmet-nil, unmet-listed, unmet-all}

module _ {F : Type 0} where
  -- What the validation has made sure of before the cycle check.
  pub record IsChecked (nodes : List (ProposalNode F)) : Type 0 where
    pub once : (x : Text) → times x (ids nodes) ≤ 1
    pub once_deps :
        (x : Text) (n : ProposalNode F) → node_of nodes x ≡ some n → (d : Text) → times d n.deps ≤ 1
    pub known :
        (x : Text) (n : ProposalNode F)
        → node_of nodes x ≡ some n
        → (d : Text) → listed n.deps d ≡ true
        → 0 < times d (ids nodes)

  -- The dependencies have no cycle: a node comes later than all that it depends on.
  abbrev pub Acyclic : List (ProposalNode F) → Type 0
  Acyclic nodes =
      (rank : Text → ℕ) × ((x : Text) (n : ProposalNode F)
        → node_of nodes x ≡ some n
        → (d : Text) → listed n.deps d ≡ true
        → rank d < rank x)

pub length-ids : {F : Type 0} (nodes : List (ProposalNode F)) → length (ids nodes) ≡ length nodes
length-ids [] = refl
length-ids (n ∷ nodes) = omega (arith, length-ids nodes)

-- How many nodes were popped up to one, itself included.
abbrev height : List Text → Text → ℕ
height [] x = 0
height (p ∷ popped) x = if text_eq p x then suc (length popped) else height popped x

height-le : (popped : List Text) (x : Text) → height popped x ≤ length popped
height-le [] x = omega arith
height-le (p ∷ popped) x = ground (arith, height-le popped x)

module _ {F : Type 0} (nodes : List (ProposalNode F)) where
  not_head :
      (p : Text) (popped : List Text) (d : Text)
      → ((y : Text) → times y (p ∷ popped) ≤ 1)
      → listed popped d ≡ true
      → text_eq p d ≡ false
  not_head p popped d once h = ground (arith, once d, listed-times popped d)

  Supported-height :
      (popped : List Text) (x : Text) (n : ProposalNode F) (d : Text)
      → Supported nodes popped
      → ((y : Text) → times y popped ≤ 1)
      → node_of nodes x ≡ some n
      → listed n.deps d ≡ true
      → listed popped x ≡ true
      → (listed popped d ≡ true) × (height popped d < height popped x)
  Supported-height [] x n d s once found dep h = cc
  Supported-height (p ∷ popped) x n d (next _ _ k k_found met s) once found dep h =
      elim (Bool-cases (text_eq p x)) [
        | inl same ↦
            let same_node : some k ≡ some n =
              sym k_found ∙ ap (node_of nodes) (text_eq→eq p x same) ∙ found in
            let d_in : listed popped d ≡ true =
              unmet-listed popped n.deps d (ground (arith, same_node)) dep in
            (
              ground (arith, not_head p popped d once d_in),
              ground (arith, not_head p popped d once d_in, height-le popped d),
            )
        | inr other ↦
            let (d_in, below) =
              Supported-height popped x n d s (λ y. omega (arith, once y)) found dep
                (ground arith) in
            (
              ground (arith, not_head p popped d once d_in),
              ground (arith, not_head p popped d once d_in),
            )
      ]

  module _ (c : IsChecked nodes) where
    module _ (popped : List Text) (s : Settled nodes popped) where
      popped_once : (x : Text) → times x popped ≤ 1
      popped_once x = ground (arith, s.all_ready x)

      popped_known : (x : Text) → 0 < times x popped → 0 < times x (ids nodes)
      popped_known x h = elim (Option-cases (node_of nodes x)) [
        | inl absent ↦ absurd (ground (arith, s.all_ready x))
        | inr (n, found) ↦ node_of-times nodes x n found
      ]

      ids_once : length popped ≤ length (ids nodes)
      ids_once = length-le-of_times popped (ids nodes) popped_once popped_known

      -- Where as many were popped as there are, each was popped.
      popped_all :
          length popped ≡ length (ids nodes)
          → (x : Text) → 0 < times x (ids nodes)
          → listed popped x ≡ true
      popped_all full x h = elim (Bool-cases (listed popped x)) [
        | inl yet ↦ yet
        | inr missing ↦ absurd (
            omega (
              arith,
              length-le-of_times (x ∷ popped) (ids nodes)
                  (λ y. elim (Bool-cases (text_eq x y)) [
                    | inl same ↦ ground (
                      arith,
                      listed-times popped x,
                      ap (λ t. times t popped) (text_eq→eq x y same),
                    )
                    | inr other ↦ ground (arith, popped_once y)
                  ])
                  (λ y y_in. elim (Bool-cases (text_eq x y)) [
                    | inl same ↦ ground (arith, ap (λ t. times t (ids nodes)) (text_eq→eq x y same))
                    | inr other ↦ popped_known y (ground (arith, y_in))
                  ]),
            ))
      ]

      full→Acyclic : length popped ≡ length (ids nodes) → Acyclic nodes
      full→Acyclic full = (
        height popped,
        λ x n found d dep.
            (Supported-height popped x n d s.supported popped_once found dep
              (popped_all full x (node_of-times nodes x n found))).1,
      )

      -- In the order of the ranks, each node was popped.
      popped_of_rank :
          (a : Acyclic nodes) (bound : ℕ) (x : Text)
          → a.0 x < bound
          → 0 < times x (ids nodes)
          → listed popped x ≡ true
      popped_of_rank a zero x h known = absurd (omega arith)
      popped_of_rank a (suc bound) x h known = elim (Option-cases (node_of nodes x)) [
        | inl absent ↦ absurd (ground (arith, times-node_of nodes x absent))
        | inr (n, found) ↦
            let met : unmet popped n.deps ≡ 0 = unmet-all popped n.deps (λ d dep.
              popped_of_rank a bound d (omega (arith, a.1 x n found d dep))
                (c.known x n found d dep)) in
            ground (arith, s.all_ready x, listed-times popped x)
      ]

      Acyclic→full : Acyclic nodes → length popped ≡ length (ids nodes)
      Acyclic→full a = omega (
        arith,
        ids_once,
        length-le-of_times (ids nodes) popped c.once
            (λ x known. ground (arith, popped_of_rank a (suc (a.0 x)) x, listed-times popped x)),
      )

    first-Round :
        (order : List Text → List Text) (m : Indegrees)
        → ((xs : List Text) (x : Text) → times x (order xs) ≡ times x xs)
        → ((x : Text) → m x ≡ at_some (node_of nodes x) none (λ n. some (length n.deps)))
        → Round nodes [] m (retain (λ id. is_zero (m id)) (order (ids nodes)))
    first-Round order m same degrees = record {
      degrees = λ x. elim (Option-cases (node_of nodes x)) [
        | inl absent ↦ ground (arith, degrees x)
        | inr (n, found) ↦ ground (arith, degrees x, unmet-nil n.deps)
      ];
      places = λ x. elim (Option-cases (node_of nodes x)) [
        | inl absent ↦
            ground (arith, degrees x, times-retain (λ id. is_zero (m id)) x (order (ids nodes)))
        | inr (n, found) ↦ ground (
          arith,
          degrees x,
          times-retain (λ id. is_zero (m id)) x (order (ids nodes)),
          same (ids nodes) x,
          node_of-times nodes x n found,
          c.once x,
          unmet-nil n.deps,
        )
      ];
      supported = start;
    }

    count_seen-Settled :
        (order : List Text → List Text)
        → ((xs : List Text) (x : Text) → times x (order xs) ≡ times x xs)
        → (popped : List Text) × (count_seen order nodes ≡ finished (length popped))
          × Settled nodes popped
    unfolding count_seen
    count_seen-Settled order same =
        let (m, e, degrees) =
          add_deps_lem nodes (enter_all nodes (λ _. none)) c.once
            (λ x n found. ground (arith, enter_all_lem nodes (λ _. none) x)) in
        let (popped, done, s) =
          drain-finished nodes c.once c.once_deps (suc (length nodes)) [] m
            (retain (λ id. is_zero (m id)) (order (ids nodes)))
            (first-Round order m same (λ x. elim (Option-cases (node_of nodes x)) [
              | inl absent ↦ ground (arith, degrees x, enter_all_lem nodes (λ _. none) x)
              | inr (n, found) ↦ ground (arith, degrees x)
            ]))
            (omega (arith, length-ids nodes)) in
        (popped, rw (e, count_seen) done, s)

    -- Where identifiers stand once, and dependencies are known and listed once, the cycle check
    -- neither panics nor needs more rounds than one more than there are nodes, whatever the order
    -- in which the map is visited once per key; and it counts as many nodes as there are exactly if
    -- the dependencies have no cycle.
    pub count_seen-Acyclic :
        (order : List Text → List Text)
        → ((xs : List Text) (x : Text) → times x (order xs) ≡ times x xs)
        → (seen : ℕ) × (count_seen order nodes ≡ finished seen)
          × ((seen ≡ length nodes) ↔ Acyclic nodes)
    count_seen-Acyclic order same =
        let (popped, done, s) = count_seen-Settled order same in
        (
          length popped,
          done,
          (
            (λ full. full→Acyclic popped s (omega (arith, length-ids nodes))),
            (λ a. omega (arith, Acyclic→full popped s a, length-ids nodes)),
          ),
        )
