-- ===== src/Graph/Finishes.antt =====
-- Where all goes well, a graph finishes (jmux/src/goal/graph.rs).
use jmux.Base.{
  suc, ◌-◌, ◌==◌, ◌≡◌, ◌⊎◌, ◌<◌, refl, inl, inr, arith, ◌∙◌, true, false, List, retain, all, any,
  Bool-cases,
}
use jmux.Graph.{NodeState, GraphNode, GraphSpec}
use jmux.Graph.Lookup.{Once, node_ids, listed-retain}
use jmux.Graph.Oblige.{Obliges, GoesWell, Rests}
use jmux.Graph.Order.{ready-AreReady}
use jmux.Graph.Progress.{
  IsOrdered, Each, ready_exists, launch_ready-Obliges, first_launch, waits_found,
}
use jmux.Graph.Schedule.{World, is_pending, is_done, is_active}
use jmux.Graph.Ticks.{launch_ready, is_ready, done_ids, active, is_stalled, schedule}
use jmux.Graph.Waiting.{waiting, any-length, some_other, some_kept}

module _ {F : Type 0} where
  -- What a tick that does not finish the graph comes to.
  pub record Progresses (spec after : GraphSpec F) (nodes : List (GraphNode F)) : Type 0 where
    pub same_status : after.status ≡ spec.status
    pub well : Each GoesWell after.nodes
    pub fewer : waiting after.nodes < waiting nodes

  Rests-is_active : (n : GraphNode F) → Rests n → is_active n.status ≡ false
  Rests-is_active n r = by_state n.status r
    where
      by_state : (s : NodeState) → (is_pending s ≡ true) ⊎ (is_done s ≡ true) → is_active s ≡ false
      by_state NodeState.running (inl h) = absurd (cc (h))
      by_state NodeState.running (inr h) = absurd (cc (h))
      by_state NodeState.review (inl h) = absurd (cc (h))
      by_state NodeState.review (inr h) = absurd (cc (h))
      by_state NodeState.pending h = refl
      by_state NodeState.done h = refl
      by_state NodeState.blocked h = refl
      by_state NodeState.interrupted h = refl

  all_rest : (nodes : List (GraphNode F)) → Once nodes → Each Rests nodes → active nodes ≡ 0
  all_rest nodes once rests = elim (Bool-cases (active nodes == 0)) [
    | inl idle ↦ ground arith
    | inr busy ↦
        let (x, n, found, h) = some_kept (λ n. is_active n.status) nodes once (ground arith) in
        absurd (cc (h, Rests-is_active n (rests x n found)))
  ]

  pub schedule-Progresses :
      (w : World F) (spec : GraphSpec F) (nodes : List (GraphNode F))
      → Obliges w
      → 0 < spec.max_concurrency
      → Once nodes
      → IsOrdered nodes
      → Each Rests nodes
      → all (λ n. is_done n.status) nodes ≡ false
      → Progresses spec (schedule w spec nodes) nodes
  unfolding schedule
  schedule-Progresses w spec nodes o cap once ordered rests left =
      let ready = node_ids (retain (is_ready (done_ids nodes)) nodes) in
      let slots = spec.max_concurrency - active nodes in
      let (x, n, found, not_done) = some_other (λ n. is_done n.status) nodes once left in
      let (y, m, y_found, y_ready) =
        ready_exists nodes ordered once rests (suc (ordered.rank x)) x n (omega arith) found
          (ground (arith, rests x n found)) in
      let are_ready = ready-AreReady nodes once in
      let (busy, fewer) =
        first_launch w o spec slots ready nodes y are_ready.waits
          (omega (arith, all_rest nodes once rests))
          (listed-retain (is_ready (done_ids nodes)) nodes y once ∙ rw (y_found) y_ready) in
      let goes =
        launch_ready-Obliges w o spec slots ready nodes
          (λ x x_in. waits_found w o spec nodes x (are_ready.waits x x_in)) in
      let some_active : any (λ n. is_active n.status) (launch_ready w spec slots ready nodes)
          ≡ true =
        any-length (λ n. is_active n.status) (launch_ready w spec slots ready nodes) busy in
      let going : is_stalled (done_ids nodes) (launch_ready w spec slots ready nodes) ≡ false =
        ground arith in
      rw (left) record {
        same_status = rw (going) refl;
        well =
            goes.well (λ x n found. elim (rests x n found) [ inl h ↦ inl h | inr h ↦ inr (inl h) ]);
        fewer = fewer;
      }
