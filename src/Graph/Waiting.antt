-- ===== src/Graph/Waiting.antt =====
-- How many nodes wait for their turn, and how many are active, as nodes change
-- (jmux/src/goal/graph.rs).
use jmux.Base.{
  ℕ, ◌≡◌, ◌≤◌, ◌<◌, refl, inl, inr, arith, Bool, true, false, some, List, [], ◌∷◌, map, length,
  retain, any, all, Bool-cases,
}
use jmux.Graph.Home.{Home}
use jmux.Base.Text.{Text, text_eq, text_eq_refl}
use jmux.Graph.{GraphNode, node, update_node}
use jmux.Graph.Grows.{waits_at}
use jmux.Graph.Lookup.{node_ids, Once, head_other_id}
use jmux.Graph.Moves.{sync_node-starts, finish-waits}
use jmux.Graph.Schedule.{
  World, is_pending, is_active, finish, finish_node, finish_all, sync_node, sync_node_states,
  to_finish,
}
use jmux.Graph.Ticks.{active}

module _ {F : Type 0} where
  abbrev pub waiting : List (GraphNode F) → ℕ
  waiting nodes = length (retain (λ n. is_pending n.status) nodes)

  -- A change that makes no node wait.
  abbrev Starts : (GraphNode F → GraphNode F) → Type 0
  Starts f = (n : GraphNode F) → is_pending (f n).status ≡ true → is_pending n.status ≡ true

  waiting-map :
      (f : GraphNode F → GraphNode F) (nodes : List (GraphNode F))
      → Starts f
      → waiting (map f nodes) ≤ waiting nodes
  waiting-map f [] s = omega arith
  waiting-map f (n ∷ nodes) s = ground (arith, waiting-map f nodes s, s n)

  pub waiting-update_node :
      (f : GraphNode F → GraphNode F) (nodes : List (GraphNode F)) (id : Text)
      → Starts f
      → waiting (update_node nodes id f) ≤ waiting nodes
  waiting-update_node f [] id s = omega arith
  waiting-update_node f (n ∷ nodes) id s = ground (arith, waiting-update_node f nodes id s, s n)

  -- A node that waited, and no longer does.
  pub waiting-started :
      (f : GraphNode F → GraphNode F) (nodes : List (GraphNode F)) (id : Text)
      → ((n : GraphNode F) → is_pending (f n).status ≡ false)
      → waits_at nodes id ≡ true
      → waiting (update_node nodes id f) < waiting nodes
  waiting-started f [] id s h = cc
  waiting-started f (n ∷ nodes) id s h = elim (Bool-cases (text_eq n.id id)) [
    | inl here ↦ ground (arith, s n)
    | inr later ↦ ground (arith, waiting-started f nodes id s)
  ]

  -- A change that makes a node active.
  pub active-more :
      (f : GraphNode F → GraphNode F) (nodes : List (GraphNode F)) (id : Text)
      → ((n : GraphNode F) → is_active (f n).status ≡ true)
      → active nodes ≤ active (update_node nodes id f)
  active-more f [] id s = omega arith
  active-more f (n ∷ nodes) id s = ground (arith, active-more f nodes id s, s n)

  pub active-found :
      (f : GraphNode F → GraphNode F) (nodes : List (GraphNode F)) (id : Text)
      → ((n : GraphNode F) → is_active (f n).status ≡ true)
      → waits_at nodes id ≡ true
      → 0 < active (update_node nodes id f)
  active-found f [] id s h = cc
  active-found f (n ∷ nodes) id s h = ground (arith, active-found f nodes id s, s n)

  waiting-finish_all :
      (w : World F) (home : Home) (to : List Text) (nodes : List (GraphNode F))
      → waiting (finish_all w home to nodes) ≤ waiting nodes
  unfolding finish_all finish_node
  waiting-finish_all w home [] nodes = omega arith
  waiting-finish_all w home (id ∷ to) nodes = omega (
    arith,
    waiting-finish_all w home to (finish_node w home id nodes),
    waiting-update_node (finish w home) nodes id
        (λ n h. absurd (ground (arith, finish-waits w home n))),
  )

  pub waiting-sync_node_states :
      (w : World F) (home : Home) (r : Bool) (nodes : List (GraphNode F))
      → waiting (sync_node_states w home r nodes) ≤ waiting nodes
  unfolding sync_node_states
  waiting-sync_node_states w home r nodes = omega (
    arith,
    waiting-finish_all w home (node_ids (retain (to_finish w r) nodes)) (map (sync_node w r) nodes),
    waiting-map (sync_node w r) nodes (sync_node-starts w r),
  )

  pub any-length :
      (p : GraphNode F → Bool) (nodes : List (GraphNode F))
      → 0 < length (retain p nodes)
      → any p nodes ≡ true
  any-length p [] h = absurd (omega arith)
  any-length p (n ∷ nodes) h = ground (arith, any-length p nodes)

  -- A node that fails a test, where not all pass it.
  pub some_other :
      (p : GraphNode F → Bool) (nodes : List (GraphNode F))
      → Once nodes
      → all p nodes ≡ false
      → (x : Text) × (n : GraphNode F) × (node nodes x ≡ some n) × (p n ≡ false)
  some_other p [] once h = cc
  some_other p (k ∷ nodes) once h = elim (Bool-cases (p k)) [
    | inr bad ↦ (k.id, k, rw (text_eq_refl k.id) refl, bad)
    | inl good ↦
        let (x, n, found, bad) = some_other p nodes (λ x. omega (arith, once x)) (ground arith) in
        (x, n, ground (arith, head_other_id k nodes x n (once x) found), bad)
  ]

  -- Where a filter keeps some node, it keeps one that is found.
  pub some_kept :
      (p : GraphNode F → Bool) (nodes : List (GraphNode F))
      → Once nodes
      → 0 < length (retain p nodes)
      → (x : Text) × (n : GraphNode F) × (node nodes x ≡ some n) × (p n ≡ true)
  some_kept p [] once h = absurd (omega arith)
  some_kept p (k ∷ nodes) once h = elim (Bool-cases (p k)) [
    | inl good ↦ (k.id, k, rw (text_eq_refl k.id) refl, good)
    | inr bad ↦
        let (x, n, found, good) = some_kept p nodes (λ x. omega (arith, once x)) (ground arith) in
        (x, n, ground (arith, head_other_id k nodes x n (once x) found), good)
  ]
