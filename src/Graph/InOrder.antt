-- ===== src/Graph/InOrder.antt =====
-- The scheduler starts and finishes nodes in the order of the plan (jmux/src/goal/graph.rs).
use mathlib.Core.Path.{subst}
use jmux.Base.{
  ◌≡◌, ◌⊎◌, refl, inl, inr, arith, ap, ◌∙◌, true, false, some, List, map, Bool-cases, Option-cases,
}
use jmux.Base.Text.{Text, text_eq, text_eq→eq}
use jmux.Graph.{GraphNode, node, update_node}
use jmux.Graph.Lookup.{
  KeepsId, node_ids, node-map, node-update_node, node_ids-map, node_ids-update_node,
}
use jmux.Graph.Grows.{
  MetAt, InOrder, KeepsDeps, Grows, Grows-refl, Grows-trans, InOrder-Grows, Grows-map,
  Grows-update_node,
}
use jmux.Graph.Schedule.{is_pending, is_done}

module _ {F : Type 0} where
  -- What every change of the scheduler keeps.
  pub record Advances (nodes nodes' : List (GraphNode F)) : Type 0 where
    pub same_ids : node_ids nodes' ≡ node_ids nodes
    pub grows : Grows nodes nodes'
    pub in_order : InOrder nodes → InOrder nodes'

  pub Advances-refl : (nodes : List (GraphNode F)) → Advances nodes nodes
  Advances-refl nodes = record { same_ids = refl; grows = Grows-refl nodes; in_order = λ o. o }

  pub Advances-trans : (a b c : List (GraphNode F)) → Advances a b → Advances b c → Advances a c
  Advances-trans a b c ab bc = record {
    same_ids = bc.same_ids ∙ ab.same_ids;
    grows = Grows-trans a b c ab.grows bc.grows;
    in_order = λ o. bc.in_order (ab.in_order o);
  }

  -- A change of a node that does not start it.
  pub record Carries (n n' : GraphNode F) : Type 0 where
    pub ids : n'.id ≡ n.id
    pub deps : n'.deps ≡ n.deps
    pub finished : is_done n.status ≡ true → is_done n'.status ≡ true
    pub started : is_pending n'.status ≡ false → is_pending n.status ≡ false

  pub Advances-map :
      (f : GraphNode F → GraphNode F) (nodes : List (GraphNode F))
      → ((n : GraphNode F) → Carries n (f n))
      → Advances nodes (map f nodes)
  Advances-map f nodes c =
      let g = Grows-map f nodes (λ n. (c n).ids) (λ n. (c n).deps) (λ n h. (c n).finished h) in
      record {
        same_ids = node_ids-map f nodes (λ n. (c n).ids);
        grows = g;
        in_order = λ o. InOrder-Grows nodes (map f nodes) g o (λ x h.
            inl (elim (Option-cases (node nodes x)) [
              | inl absent ↦ ground arith
              | inr (n, found) ↦ ground (arith, node-map f nodes x (λ n. (c n).ids), (c n).started)
            ]));
      }

  -- A change of one node that may start it if its dependencies are done.
  pub Advances-update_node :
      (f : GraphNode F → GraphNode F) (nodes : List (GraphNode F)) (id : Text)
      → KeepsId f
      → KeepsDeps f
      → ((n : GraphNode F)
          → node nodes id ≡ some n
          → is_done n.status ≡ true
          → is_done (f n).status ≡ true)
      → ((n : GraphNode F)
          → node nodes id ≡ some n
          → is_pending (f n).status ≡ false
          → (is_pending n.status ≡ false) ⊎ MetAt nodes id)
      → Advances nodes (update_node nodes id f)
  Advances-update_node f nodes id ids deps finished started =
      let g = Grows-update_node f nodes id ids deps finished in
      record {
        same_ids = node_ids-update_node f nodes id ids;
        grows = g;
        in_order = λ o. InOrder-Grows nodes (update_node nodes id f) g o (λ x h.
            elim (Bool-cases (text_eq id x)) [
              | inr other ↦ inl (ground (arith, node-update_node f nodes id x ids))
              | inl same ↦
                  let id_x : id ≡ x = text_eq→eq id x same in
                  elim (Option-cases (node nodes x)) [
                    | inl absent ↦ inl (ground arith)
                    | inr (n, found) ↦
                        elim (started n (ap (node nodes) id_x ∙ found)
                          (ground (arith, node-update_node f nodes id x ids))) [
                            | inl before ↦ inl (ground arith)
                            | inr met ↦ inr (subst (MetAt nodes) id_x met)
                          ]
                  ]
            ]);
      }
