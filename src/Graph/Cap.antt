-- ===== src/Graph/Cap.antt =====
-- The limit on nodes that run at once (jmux/src/goal/graph.rs).
use jmux.Base.{
  ℕ, suc, ◌+◌, ◌-◌, ◌==◌, ◌≡◌, ◌≤◌, inl, inr, arith, Bool, true, List, [], ◌∷◌, map, length, retain,
  all, Bool-cases,
}
use jmux.Graph.Home.{Home, home_of}
use jmux.Base.Text.{Text}
use jmux.Graph.{GraphNode, GraphSpec, update_node}
use jmux.Graph.Lookup.{node_ids}
use jmux.Graph.Schedule.{
  World, is_running, is_done, is_active, finish, finish_node, finish_all, sync_node,
  sync_node_states, to_finish,
}
use jmux.Graph.Moves.{Finished, was_done, now_merged, is_merged, is_held, finish-Finished}
use jmux.Graph.Ticks.{mark, block, is_ready, done_ids, schedule, tick_running, active}
use jmux.Graph.Launching.{Launching, nothing_left, no_slot, start, fail, launch_ready-Launching}

module _ {F : Type 0} where
  -- A change that makes no node active.
  abbrev pub Calms : (GraphNode F → GraphNode F) → Type 0
  Calms f = (n : GraphNode F) → is_active (f n).status ≡ true → is_active n.status ≡ true

  pub active-map :
      (f : GraphNode F → GraphNode F) (nodes : List (GraphNode F))
      → Calms f
      → active (map f nodes) ≤ active nodes
  active-map f [] c = omega arith
  active-map f (n ∷ nodes) c = ground (arith, active-map f nodes c, c n)

  pub active-update_node :
      (f : GraphNode F → GraphNode F) (nodes : List (GraphNode F)) (id : Text)
      → Calms f
      → active (update_node nodes id f) ≤ active nodes
  active-update_node f [] id c = omega arith
  active-update_node f (n ∷ nodes) id c = ground (arith, active-update_node f nodes id c, c n)

  active-one_more :
      (f : GraphNode F → GraphNode F) (nodes : List (GraphNode F)) (id : Text)
      → active (update_node nodes id f) ≤ suc (active nodes)
  active-one_more f [] id = omega arith
  active-one_more f (n ∷ nodes) id = ground (arith, active-one_more f nodes id)

  sync_node-Calms : (w : World F) (r : Bool) → Calms (sync_node w r)
  unfolding sync_node
  sync_node-Calms w r n h = elim (Bool-cases (is_running n.status)) [
    | inl here ↦ ground arith
    | inr other ↦ rw (other) at h
  ]

  pub finish-Calms : (w : World F) (home : Home) → Calms (finish w home)
  finish-Calms w home n = of_Finished (finish-Finished w home n)
    where
      of_Finished :
          {n' : GraphNode F}
          → Finished n n'
          → is_active n'.status ≡ true
          → is_active n.status ≡ true
      of_Finished (was_done d) h = h
      of_Finished (now_merged i _ d is_merged) h = absurd (cc (h))
      of_Finished (now_merged i _ d (is_held e)) h = absurd (cc (h))

  pub active-finish_all :
      (w : World F) (home : Home) (to : List Text) (nodes : List (GraphNode F))
      → active (finish_all w home to nodes) ≤ active nodes
  unfolding finish_all finish_node
  active-finish_all w home [] nodes = omega arith
  active-finish_all w home (id ∷ to) nodes = omega (
    arith,
    active-finish_all w home to (finish_node w home id nodes),
    active-update_node (finish w home) nodes id (finish-Calms w home),
  )

  active-sync_node_states :
      (w : World F) (home : Home) (r : Bool) (nodes : List (GraphNode F))
      → active (sync_node_states w home r nodes) ≤ active nodes
  unfolding sync_node_states
  active-sync_node_states w home r nodes = omega (
    arith,
    active-finish_all w home (node_ids (retain (to_finish w r) nodes)) (map (sync_node w r) nodes),
    active-map (sync_node w r) nodes (sync_node-Calms w r),
  )

  Launching-active :
      (slots : ℕ) (ready : List Text) (nodes after : List (GraphNode F))
      → Launching slots ready nodes after
      → active after ≤ active nodes + slots
  unfolding block
  Launching-active slots _ nodes _ (nothing_left _ _) = omega arith
  Launching-active _ ready nodes _ (no_slot _ _) = omega arith
  Launching-active _ _ nodes after (start slots id ready _ _ b t ws l) = omega (
    arith,
    active-one_more (mark b t ws) nodes id,
    Launching-active slots ready (update_node nodes id (mark b t ws)) after l,
  )
  Launching-active _ _ nodes after (fail slots id ready _ _ e l) = omega (
    arith,
    active-update_node (block e) nodes id (λ n h. absurd (cc (h))),
    Launching-active (suc slots) ready (update_node nodes id (block e)) after l,
  )

  -- A tick keeps the limit.
  pub active-tick_running :
      (w : World F) (spec : GraphSpec F)
      → active spec.nodes ≤ spec.max_concurrency
      → active (tick_running w spec).nodes ≤ spec.max_concurrency
  unfolding tick_running schedule
  active-tick_running w spec h = elim (Bool-cases (length spec.nodes == 0)) [
    | inl empty ↦ rw (empty) h
    | inr some_nodes ↦
        let nodes = sync_node_states w (home_of spec) spec.review_iterations spec.nodes in
        let synced : active nodes ≤ active spec.nodes =
          active-sync_node_states w (home_of spec) spec.review_iterations spec.nodes in
        elim (Bool-cases (all (λ n. is_done n.status) nodes)) [
          | inl finished ↦ rw (some_nodes, finished) (omega (arith, synced))
          | inr not_yet ↦
              rw (some_nodes, not_yet)
                (omega (
                  arith,
                  synced,
                  Launching-active _ _ nodes _ (
                      launch_ready-Launching w spec (spec.max_concurrency - active nodes)
                        (node_ids (retain (is_ready (done_ids nodes)) nodes)) nodes),
                ))
        ]
  ]
