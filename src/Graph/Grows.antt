-- ===== src/Graph/Grows.antt =====
-- How the nodes of a graph may change: the plan stays, and what is done stays done
-- (jmux/src/goal/graph.rs).
use jmux.Base.{
  ◌≡◌, ◌⊎◌, refl, inl, inr, arith, ap, ◌∙◌, sym, Bool, true, false, some, List, map, Bool-cases,
  Option-cases,
}
use jmux.Base.Names.{listed}
use jmux.Base.Text.{Text, text_eq, text_eq→eq}
use jmux.Graph.{GraphNode, node, update_node}
use jmux.Graph.Relax.{at_some}
use jmux.Graph.Lookup.{KeepsId, node-map, node-update_node}
use jmux.Graph.Schedule.{is_done, is_pending}

module _ {F : Type 0} where
  abbrev pub done_at : List (GraphNode F) → Text → Bool
  done_at nodes x = at_some (node nodes x) false (λ n. is_done n.status)

  abbrev pub waits_at : List (GraphNode F) → Text → Bool
  waits_at nodes x = at_some (node nodes x) false (λ n. is_pending n.status)

  -- All dependencies of a node are done.
  abbrev pub MetAt : List (GraphNode F) → Text → Type 0
  MetAt nodes x =
      (n : GraphNode F)
      → node nodes x ≡ some n
      → (d : Text) → listed n.deps d ≡ true
      → done_at nodes d ≡ true

  -- A node that no longer waits for its turn has all its dependencies done.
  abbrev pub InOrder : List (GraphNode F) → Type 0
  InOrder nodes = (x : Text) → waits_at nodes x ≡ false → MetAt nodes x

  abbrev pub KeepsDeps : (GraphNode F → GraphNode F) → Type 0
  KeepsDeps f = (n : GraphNode F) → (f n).deps ≡ n.deps

  pub record Grows (nodes nodes' : List (GraphNode F)) : Type 0 where
    pub same_deps :
        (x : Text) (n' : GraphNode F)
        → node nodes' x ≡ some n'
        → (n : GraphNode F) × (node nodes x ≡ some n) × (n'.deps ≡ n.deps)
    done_stays : (x : Text) → done_at nodes x ≡ true → done_at nodes' x ≡ true

  pub Grows-refl : (nodes : List (GraphNode F)) → Grows nodes nodes
  Grows-refl nodes = record { same_deps = λ x n found. (n, found, refl); done_stays = λ x h. h }

  pub Grows-trans : (a b c : List (GraphNode F)) → Grows a b → Grows b c → Grows a c
  Grows-trans a b c ab bc = record {
    same_deps = λ x n found.
        let (m, m_found, m_deps) = bc.same_deps x n found in
        let (k, k_found, k_deps) = ab.same_deps x m m_found in (k, k_found, m_deps ∙ k_deps);
    done_stays = λ x h. bc.done_stays x (ab.done_stays x h);
  }

  pub MetAt-Grows :
      (nodes nodes' : List (GraphNode F)) (x : Text)
      → Grows nodes nodes'
      → MetAt nodes x
      → MetAt nodes' x
  MetAt-Grows nodes nodes' x g met n' found d dep =
      let (n, n_found, deps) = g.same_deps x n' found in
      g.done_stays d (met n n_found d (ap (λ ds. listed ds d) (sym deps) ∙ dep))

  pub InOrder-Grows :
      (nodes nodes' : List (GraphNode F))
      → Grows nodes nodes'
      → InOrder nodes
      → ((x : Text) → waits_at nodes' x ≡ false → (waits_at nodes x ≡ false) ⊎ MetAt nodes x)
      → InOrder nodes'
  InOrder-Grows nodes nodes' g o started x h = elim (started x h) [
    | inl before ↦ MetAt-Grows nodes nodes' x g (o x before)
    | inr met ↦ MetAt-Grows nodes nodes' x g met
  ]

  pub Grows-map :
      (f : GraphNode F → GraphNode F) (nodes : List (GraphNode F))
      → KeepsId f
      → KeepsDeps f
      → ((n : GraphNode F) → is_done n.status ≡ true → is_done (f n).status ≡ true)
      → Grows nodes (map f nodes)
  Grows-map f nodes ids deps finished = record {
    same_deps = λ x n' found. elim (Option-cases (node nodes x)) [
      | inl absent ↦ absurd (ground (arith, node-map f nodes x ids))
      | inr (n, n_found) ↦ (n, n_found, ground (arith, node-map f nodes x ids, deps n))
    ];
    done_stays = λ x h. elim (Option-cases (node nodes x)) [
      | inl absent ↦ absurd (ground arith)
      | inr (n, n_found) ↦ ground (arith, node-map f nodes x ids, finished n)
    ];
  }

  pub Grows-update_node :
      (f : GraphNode F → GraphNode F) (nodes : List (GraphNode F)) (id : Text)
      → KeepsId f
      → KeepsDeps f
      → ((n : GraphNode F)
          → node nodes id ≡ some n
          → is_done n.status ≡ true
          → is_done (f n).status ≡ true)
      → Grows nodes (update_node nodes id f)
  Grows-update_node f nodes id ids deps finished = record {
    same_deps = λ x n' found. elim (Option-cases (node nodes x)) [
      | inl absent ↦ absurd (ground (arith, node-update_node f nodes id x ids))
      | inr (n, n_found) ↦ (n, n_found, ground (arith, node-update_node f nodes id x ids, deps n))
    ];
    done_stays = λ x h. elim (Option-cases (node nodes x)) [
      | inl absent ↦ absurd (ground arith)
      | inr (n, n_found) ↦ elim (Bool-cases (text_eq id x)) [
        | inl same ↦ ground (
          arith,
          node-update_node f nodes id x ids,
          finished n,
          ap (node nodes) (text_eq→eq id x same),
        )
        | inr other ↦ ground (arith, node-update_node f nodes id x ids)
      ]
    ];
  }
