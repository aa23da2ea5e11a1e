-- ===== src/Graph/Order.antt =====
-- A tick of the scheduler keeps the order of the plan (jmux/src/goal/graph.rs).
use jmux.Base.{
  ℕ, suc, ◌==◌, ◌≡◌, ◌≤◌, refl, inl, inr, arith, ap, ◌∙◌, sym, Bool, true, false, some, List, [],
  ◌∷◌, map, length, retain, all, Bool-cases, Option-cases,
}
use jmux.Base.Names.{times, listed, listed-times}
use jmux.Graph.Home.{Home, home_of}
use jmux.Base.Text.{Text, text_eq, text_eq→eq, text_eq_refl}
use jmux.Graph.{GraphNode, GraphSpec, node, update_node}
use jmux.Graph.Relax.{at_some}
use jmux.Graph.Lookup.{Once, node_ids, node-map, node-update_node, listed-retain, times-retain_ids}
use jmux.Graph.Grows.{waits_at, MetAt, MetAt-Grows}
use jmux.Graph.InOrder.{Advances, Advances-refl, Advances-trans, Advances-map, Advances-update_node}
use jmux.Graph.Schedule.{
  World, is_done, finish, finish_node, finish_all, sync_node, sync_node_states, to_finish,
}
use jmux.Graph.Moves.{
  waits_not_done, sync_node-Carries, sync_node-waits, finish-id, finish-deps, finish-done,
  finish-waits,
}
use jmux.Graph.Ticks.{mark, block, is_ready, done_ids, schedule, tick_running}
use jmux.Graph.Launching.{Launching, nothing_left, no_slot, start, fail, launch_ready-Launching}

all-listed :
    (finished deps : List Text) (d : Text)
    → all (listed finished) deps ≡ true
    → listed deps d ≡ true
    → listed finished d ≡ true
all-listed finished [] d h d_in = cc
all-listed finished (e ∷ deps) d h d_in = elim (Bool-cases (text_eq e d)) [
  | inl same ↦ ground (arith, ap (listed finished) (text_eq→eq e d same))
  | inr other ↦ all-listed finished deps d (ground arith) (ground arith)
]

module _ {F : Type 0} where
  pub finish_node-Advances :
      (w : World F) (home : Home) (nodes : List (GraphNode F)) (id : Text)
      → waits_at nodes id ≡ false
      → Advances nodes (finish_node w home id nodes)
  unfolding finish_node
  finish_node-Advances w home nodes id h =
      Advances-update_node (finish w home) nodes id (finish-id w home) (finish-deps w home)
        (λ n found d. finish-done w home n d) (λ n found p. inl (ground arith))

  finish_node-waits :
      (w : World F) (home : Home) (nodes : List (GraphNode F)) (id x : Text)
      → waits_at nodes x ≡ false
      → waits_at (finish_node w home id nodes) x ≡ false
  unfolding finish_node
  finish_node-waits w home nodes id x h = elim (Option-cases (node nodes x)) [
    | inl absent ↦ ground (arith, node-update_node (finish w home) nodes id x (finish-id w home))
    | inr (n, found) ↦ ground (
      arith,
      node-update_node (finish w home) nodes id x (finish-id w home),
      finish-waits w home n,
    )
  ]

  pub finish_all-Advances :
      (w : World F) (home : Home) (to : List Text) (nodes : List (GraphNode F))
      → ((x : Text) → listed to x ≡ true → waits_at nodes x ≡ false)
      → Advances nodes (finish_all w home to nodes)
  unfolding finish_all
  finish_all-Advances w home [] nodes h = Advances-refl nodes
  finish_all-Advances w home (id ∷ to) nodes h =
      Advances-trans nodes (finish_node w home id nodes) _
        (finish_node-Advances w home nodes id (h id (rw (text_eq_refl id) refl)))
        (finish_all-Advances w home to (finish_node w home id nodes)
          (λ x x_in. finish_node-waits w home nodes id x (h x (ground (arith, x_in)))))

  synced-waits :
      (w : World F) (r : Bool) (nodes : List (GraphNode F)) (x : Text)
      → Once nodes
      → listed (node_ids (retain (to_finish w r) nodes)) x ≡ true
      → waits_at (map (sync_node w r) nodes) x ≡ false
  synced-waits w r nodes x once h = elim (Option-cases (node nodes x)) [
    | inl absent ↦
        ground (arith, node-map (sync_node w r) nodes x (λ n. (sync_node-Carries w r n).ids))
    | inr (n, found) ↦
        let chosen : to_finish w r n ≡ true =
          sym (ap (λ o. at_some o false (to_finish w r)) found)
          ∙ (sym (listed-retain (to_finish w r) nodes x once) ∙ h) in
        ground (
          arith,
          node-map (sync_node w r) nodes x (λ n. (sync_node-Carries w r n).ids),
          sync_node-waits w r n (ground (arith, chosen)),
        )
  ]

  pub sync_node_states-Advances :
      (w : World F) (home : Home) (r : Bool) (nodes : List (GraphNode F))
      → Once nodes
      → Advances nodes (sync_node_states w home r nodes)
  unfolding sync_node_states
  sync_node_states-Advances w home r nodes once =
      Advances-trans nodes (map (sync_node w r) nodes) _
        (Advances-map (sync_node w r) nodes (sync_node-Carries w r))
        (finish_all-Advances w home (node_ids (retain (to_finish w r) nodes))
          (map (sync_node w r) nodes) (λ x x_in. synced-waits w r nodes x once x_in))

  -- Changing a node that waits, and has its dependencies done.
  ready-Advances :
      (f : GraphNode F → GraphNode F) (nodes : List (GraphNode F)) (id : Text)
      → ((n : GraphNode F) → (f n).id ≡ n.id)
      → ((n : GraphNode F) → (f n).deps ≡ n.deps)
      → waits_at nodes id ≡ true
      → MetAt nodes id
      → Advances nodes (update_node nodes id f)
  ready-Advances f nodes id ids deps waits met =
      Advances-update_node f nodes id ids deps
        (λ n found d. absurd (ground (arith, waits_not_done n.status))) (λ n found p. inr met)

  -- The nodes that are to be launched: each once, waiting, and with its dependencies done.
  pub record AreReady (ready : List Text) (nodes : List (GraphNode F)) : Type 0 where
    pub once : (x : Text) → times x ready ≤ 1
    pub waits : (x : Text) → listed ready x ≡ true → waits_at nodes x ≡ true
    pub met : (x : Text) → listed ready x ≡ true → MetAt nodes x

  head-Advances :
      (f : GraphNode F → GraphNode F) (nodes : List (GraphNode F)) (id : Text) (ready : List Text)
      → ((n : GraphNode F) → (f n).id ≡ n.id)
      → ((n : GraphNode F) → (f n).deps ≡ n.deps)
      → AreReady (id ∷ ready) nodes
      → Advances nodes (update_node nodes id f)
  head-Advances f nodes id ready ids deps r =
      let here : listed (id ∷ ready) id ≡ true = rw (text_eq_refl id) refl in
      ready-Advances f nodes id ids deps (r.waits id here) (r.met id here)

  tail-AreReady :
      (f : GraphNode F → GraphNode F) (nodes : List (GraphNode F)) (id : Text) (ready : List Text)
      → ((n : GraphNode F) → (f n).id ≡ n.id)
      → ((n : GraphNode F) → (f n).deps ≡ n.deps)
      → AreReady (id ∷ ready) nodes
      → AreReady ready (update_node nodes id f)
  tail-AreReady f nodes id ready ids deps r =
      let later : (x : Text) → listed ready x ≡ true → listed (id ∷ ready) x ≡ true =
        λ x x_in. ground (arith, x_in) in
      record {
        once = λ x. omega (arith, r.once x);
        waits = λ x x_in. ground (
          arith,
          node-update_node f nodes id x ids,
          r.waits x (later x x_in),
          r.once x,
          listed-times ready x,
        );
        met = λ x x_in.
            MetAt-Grows nodes (update_node nodes id f) x
              (head-Advances f nodes id ready ids deps r).grows (r.met x (later x x_in));
      }

  Launching-Advances :
      (slots : ℕ) (ready : List Text) (nodes after : List (GraphNode F))
      → Launching slots ready nodes after
      → AreReady ready nodes
      → Advances nodes after
  unfolding mark block
  Launching-Advances slots _ nodes _ (nothing_left _ _) r = Advances-refl nodes
  Launching-Advances _ ready nodes _ (no_slot _ _) r = Advances-refl nodes
  Launching-Advances _ _ nodes after (start slots id ready _ _ b t ws l) r =
      Advances-trans nodes (update_node nodes id (mark b t ws)) after
        (head-Advances (mark b t ws) nodes id ready (λ n. refl) (λ n. refl) r)
        (Launching-Advances slots ready (update_node nodes id (mark b t ws)) after l
          (tail-AreReady (mark b t ws) nodes id ready (λ n. refl) (λ n. refl) r))
  Launching-Advances _ _ nodes after (fail slots id ready _ _ e l) r =
      Advances-trans nodes (update_node nodes id (block e)) after
        (head-Advances (block e) nodes id ready (λ n. refl) (λ n. refl) r)
        (Launching-Advances (suc slots) ready (update_node nodes id (block e)) after l
          (tail-AreReady (block e) nodes id ready (λ n. refl) (λ n. refl) r))

  -- The ready nodes of a tick.
  pub ready-AreReady :
      (nodes : List (GraphNode F))
      → Once nodes
      → AreReady (node_ids (retain (is_ready (done_ids nodes)) nodes)) nodes
  ready-AreReady nodes once =
      let chosen : (x : Text) (n : GraphNode F)
          → listed (node_ids (retain (is_ready (done_ids nodes)) nodes)) x ≡ true
          → node nodes x ≡ some n
          → is_ready (done_ids nodes) n ≡ true =
        λ x n h found.
          sym (ap (λ o. at_some o false (is_ready (done_ids nodes))) found)
          ∙ (sym (listed-retain (is_ready (done_ids nodes)) nodes x once) ∙ h) in
      record {
        once = λ x. omega (arith, once x, times-retain_ids (is_ready (done_ids nodes)) nodes x);
        waits = λ x h. elim (Option-cases (node nodes x)) [
          | inl absent ↦
              absurd (ground (arith, listed-retain (is_ready (done_ids nodes)) nodes x once))
          | inr (n, found) ↦ ground (arith, chosen x n h found)
        ];
        met = λ x h n found d dep.
            sym (listed-retain (λ n. is_done n.status) nodes d once)
            ∙ all-listed (done_ids nodes) n.deps d (ground (arith, chosen x n h found)) dep;
      }

  schedule-Advances :
      (w : World F) (spec : GraphSpec F) (nodes : List (GraphNode F))
      → Once nodes
      → Advances nodes (schedule w spec nodes).nodes
  unfolding schedule
  schedule-Advances w spec nodes once = elim (Bool-cases (all (λ n. is_done n.status) nodes)) [
    | inl finished ↦ rw (finished) (Advances-refl nodes)
    | inr not_yet ↦ rw (not_yet) (
        Launching-Advances _ _ nodes _ (launch_ready-Launching w spec _ _ nodes)
          (ready-AreReady nodes once))
  ]

  -- Where no identifier stands twice, `tick_running` is a step of the abstract schedule:
  -- identifiers and dependencies stay, what is done stays done, and if each node that no longer
  -- waited had its dependencies done, this is so afterwards.
  pub tick_running-Advances :
      (w : World F) (spec : GraphSpec F)
      → Once spec.nodes
      → Advances spec.nodes (tick_running w spec).nodes
  unfolding tick_running
  tick_running-Advances w spec once = elim (Bool-cases (length spec.nodes == 0)) [
    | inl empty ↦ rw (empty) (Advances-refl spec.nodes)
    | inr some_nodes ↦
        let s = sync_node_states-Advances w (home_of spec) spec.review_iterations spec.nodes once in
        rw (some_nodes) (
          Advances-trans spec.nodes _ _ s
            (schedule-Advances w spec _ (λ x. rw (s.same_ids) (once x))))
  ]
