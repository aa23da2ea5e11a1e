-- ===== src/Graph/Lookup.antt =====
-- Looking up the nodes of a graph, before and after they change (jmux/src/goal/graph.rs).
use jmux.Base.{
  ◌≡◌, ◌≤◌, ◌<◌, refl, inl, inr, arith, ap, Bool, true, false, none, some, List, [], ◌∷◌, map,
  if◌then◌else◌, length, retain, Bool-cases, Option-cases,
}
use jmux.Base.Names.{times, listed}
use jmux.Base.Text.{Text, text_eq, text_eq→eq}
use jmux.Graph.{GraphNode, node, update_node}
use jmux.Graph.Relax.{at_some}

module _ {F : Type 0} where
  abbrev pub node_ids : List (GraphNode F) → List Text
  node_ids nodes = map (λ n. n.id) nodes

  -- No identifier stands twice.
  abbrev pub Once : List (GraphNode F) → Type 0
  Once nodes = (x : Text) → times x (node_ids nodes) ≤ 1

  abbrev pub KeepsId : (GraphNode F → GraphNode F) → Type 0
  KeepsId f = (n : GraphNode F) → (f n).id ≡ n.id

  node-id :
      (nodes : List (GraphNode F)) (x : Text) (n : GraphNode F) → node nodes x ≡ some n → n.id ≡ x
  node-id [] x n h = cc
  node-id (k ∷ nodes) x n h = elim (Bool-cases (text_eq k.id x)) [
    | inl here ↦ ground (arith, text_eq→eq k.id x here)
    | inr later ↦ node-id nodes x n (ground arith)
  ]

  pub times-node :
      (nodes : List (GraphNode F)) (x : Text) (n : GraphNode F)
      → node nodes x ≡ some n
      → 0 < times x (node_ids nodes)
  times-node [] x n h = cc
  times-node (k ∷ nodes) x n h = ground (arith, times-node nodes x n)

  node_head_only :
      (k : GraphNode F) (nodes : List (GraphNode F)) (x : Text)
      → times x (node_ids (k ∷ nodes)) ≤ 1
      → text_eq k.id x ≡ true
      → node nodes x ≡ none
  node_head_only k nodes x once same = elim (Option-cases (node nodes x)) [
    | inl absent ↦ absent
    | inr (n, h) ↦ absurd (ground (arith, times-node nodes x n h))
  ]

  pub node-map :
      (g : GraphNode F → GraphNode F) (nodes : List (GraphNode F)) (x : Text)
      → KeepsId g
      → node (map g nodes) x ≡ at_some (node nodes x) none (λ n. some (g n))
  node-map g [] x keeps = refl
  node-map g (k ∷ nodes) x keeps = ground (arith, keeps k, node-map g nodes x keeps)

  pub node-update_node :
      (f : GraphNode F → GraphNode F) (nodes : List (GraphNode F)) (id x : Text)
      → KeepsId f
      → node (update_node nodes id f) x
        ≡ (if text_eq id x then at_some (node nodes x) none (λ n. some (f n)) else node nodes x)
  node-update_node f [] id x keeps = ground arith
  node-update_node f (k ∷ nodes) id x keeps = elim (Bool-cases (text_eq k.id id)) [
    | inl here ↦ ground (arith, keeps k, ap (λ t. text_eq t x) (text_eq→eq k.id id here))
    | inr later ↦ elim (Bool-cases (text_eq id x)) [
      | inl same ↦
          ground
            (arith, node-update_node f nodes id x keeps, ap (text_eq k.id) (text_eq→eq id x same))
      | inr other ↦ ground (arith, node-update_node f nodes id x keeps)
    ]
  ]

  pub node_ids-map :
      (g : GraphNode F → GraphNode F) (nodes : List (GraphNode F))
      → KeepsId g
      → node_ids (map g nodes) ≡ node_ids nodes
  node_ids-map g [] keeps = refl
  node_ids-map g (k ∷ nodes) keeps = ground (arith, keeps k, node_ids-map g nodes keeps)

  pub node_ids-update_node :
      (f : GraphNode F → GraphNode F) (nodes : List (GraphNode F)) (id : Text)
      → KeepsId f
      → node_ids (update_node nodes id f) ≡ node_ids nodes
  node_ids-update_node f [] id keeps = refl
  node_ids-update_node f (k ∷ nodes) id keeps =
      ground (arith, keeps k, node_ids-update_node f nodes id keeps)

  -- Whether a node's identifier is among those that a filter keeps.
  pub listed-retain :
      (p : GraphNode F → Bool) (nodes : List (GraphNode F)) (x : Text)
      → Once nodes
      → listed (node_ids (retain p nodes)) x ≡ at_some (node nodes x) false p
  listed-retain p [] x once = refl
  listed-retain p (k ∷ nodes) x once =
      let rest : listed (node_ids (retain p nodes)) x ≡ at_some (node nodes x) false p =
        listed-retain p nodes x (λ y. omega (arith, once y)) in
      elim (Bool-cases (text_eq k.id x)) [
        | inl same ↦ ground (arith, rest, node_head_only k nodes x (once x) same)
        | inr other ↦ ground (arith, rest)
      ]

  pub times-retain_ids :
      (p : GraphNode F → Bool) (nodes : List (GraphNode F)) (x : Text)
      → times x (node_ids (retain p nodes)) ≤ times x (node_ids nodes)
  times-retain_ids p [] x = omega arith
  times-retain_ids p (k ∷ nodes) x = ground (arith, times-retain_ids p nodes x)

  pub head_other_id :
      (k : GraphNode F) (nodes : List (GraphNode F)) (x : Text) (n : GraphNode F)
      → times x (node_ids (k ∷ nodes)) ≤ 1
      → node nodes x ≡ some n
      → text_eq k.id x ≡ false
  head_other_id k nodes x n once h = ground (arith, times-node nodes x n h)

  pub length-node_ids : (nodes : List (GraphNode F)) → length (node_ids nodes) ≡ length nodes
  length-node_ids [] = refl
  length-node_ids (k ∷ nodes) = omega (arith, length-node_ids nodes)

  -- A node that stands among the identifiers is found.
  pub node_found :
      (nodes : List (GraphNode F)) (x : Text)
      → 0 < times x (node_ids nodes)
      → (n : GraphNode F) × (node nodes x ≡ some n)
  node_found [] x h = absurd (omega arith)
  node_found (k ∷ nodes) x h = elim (Bool-cases (text_eq k.id x)) [
    | inl here ↦ (k, rw (here) refl)
    | inr later ↦ let (n, found) = node_found nodes x (ground arith) in (n, rw (later) found)
  ]
