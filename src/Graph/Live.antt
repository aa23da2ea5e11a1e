-- ===== src/Graph/Live.antt =====
-- Ticks of a graph whose nodes can all be finished (jmux/src/goal/graph.rs).
use jmux.Base.{
  ℕ, zero, suc, ◌==◌, ◌≡◌, ◌⊎◌, ◌≤◌, ◌<◌, refl, inl, inr, arith, ap, ◌∙◌, sym, true, false, List,
  length, all, Bool-cases, if_false,
}
use jmux.Base.Names.{listed}
use jmux.Graph.Home.{home_of}
use jmux.Graph.{GraphState, complete, GraphNode, GraphSpec}
use jmux.Graph.Finishes.{Progresses, schedule-Progresses}
use jmux.Graph.InOrder.{Advances}
use jmux.Graph.Lookup.{Once, node_found, times-node, length-node_ids}
use jmux.Graph.Oblige.{Obliges, GoesWell, Rests, sync_node_states-Rests}
use jmux.Graph.Order.{sync_node_states-Advances, tick_running-Advances}
use jmux.Graph.Progress.{IsOrdered, Each}
use jmux.Graph.Schedule.{World, is_done, sync_node_states}
use jmux.Graph.Ticks.{schedule, tick_running, process_by, process_graph}
use jmux.Graph.Waiting.{waiting, waiting-sync_node_states}

module _ {F : Type 0} where
  -- A running graph whose nodes can all be finished.
  pub record IsLive (s : GraphSpec F) : Type 0 where
    pub works : s.status ≡ GraphState.running
    pub has_nodes : (length s.nodes == 0) ≡ false
    pub once : Once s.nodes
    pub ordered : IsOrdered s.nodes
    pub well : Each GoesWell s.nodes
    pub unreviewed : s.review_iterations ≡ false
    pub cap : 0 < s.max_concurrency

  IsOrdered-Advances :
      (nodes nodes' : List (GraphNode F))
      → Advances nodes nodes'
      → IsOrdered nodes
      → IsOrdered nodes'
  IsOrdered-Advances nodes nodes' a o = record {
    rank = o.rank;
    below = λ x n found d dep.
        let (m, m_found, deps) = a.grows.same_deps x n found in
        o.below x m m_found d (ap (λ ds. listed ds d) (sym deps) ∙ dep);
    known = λ x n found d dep.
        let (m, m_found, deps) = a.grows.same_deps x n found in
        let (k, k_found) = o.known x m m_found d (ap (λ ds. listed ds d) (sym deps) ∙ dep) in
        node_found nodes' d (rw (a.same_ids) (times-node nodes d k k_found));
  }

  Rests-synced :
      (w : World F) (s : GraphSpec F)
      → Obliges w
      → IsLive s
      → Each Rests (sync_node_states w (home_of s) false s.nodes)
  Rests-synced w s o l x n found =
      let a = sync_node_states-Advances w (home_of s) false s.nodes l.once in
      let (m, m_found, deps) = a.grows.same_deps x n found in
      sync_node_states-Rests w o (home_of s) s.nodes x m n l.once m_found (l.well x m m_found) found

  -- The fields of a graph that a tick leaves.
  pub record SameLimits (s t : GraphSpec F) : Type 0 where
    pub same_cap : t.max_concurrency ≡ s.max_concurrency
    pub same_review : t.review_iterations ≡ s.review_iterations

  SameLimits-schedule :
      (w : World F) (s : GraphSpec F) (nodes : List (GraphNode F))
      → SameLimits s (schedule w s nodes)
  unfolding schedule
  SameLimits-schedule w s nodes = elim (Bool-cases (all (λ n. is_done n.status) nodes)) [
    | inl finished ↦ rw (finished) record { same_cap = refl; same_review = refl }
    | inr left ↦ rw (left) record { same_cap = refl; same_review = refl }
  ]

  schedule-done :
      (w : World F) (s : GraphSpec F) (nodes : List (GraphNode F))
      → all (λ n. is_done n.status) nodes ≡ true
      → (schedule w s nodes).status ≡ complete
  unfolding schedule
  schedule-done w s nodes h = rw (h) refl

  tick_by :
      (w : World F) (s : GraphSpec F)
      → IsLive s
      → tick_running w s ≡ schedule w s (sync_node_states w (home_of s) false s.nodes)
  unfolding tick_running
  tick_by w s l =
      if_false (length s.nodes == 0) _ _ l.has_nodes
      ∙ ap (λ r. schedule w s (sync_node_states w (home_of s) r s.nodes)) l.unreviewed

  -- A tick finishes the graph, or starts a node.
  IsLive-tick_running :
      (w : World F) (s : GraphSpec F)
      → Obliges w
      → IsLive s
      → ((tick_running w s).status ≡ complete)
        ⊎ (IsLive (tick_running w s) × (waiting (tick_running w s).nodes < waiting s.nodes))
  IsLive-tick_running w s o l =
      let nodes = sync_node_states w (home_of s) false s.nodes in
      let a = sync_node_states-Advances w (home_of s) false s.nodes l.once in
      let once : Once nodes = λ x. rw (a.same_ids) (l.once x) in
      let t = tick_running-Advances w s l.once in
      elim (Bool-cases (all (λ n. is_done n.status) nodes)) [
        | inl finished ↦ inl (rw (tick_by w s l) (schedule-done w s nodes finished))
        | inr left ↦
            let p : Progresses s (tick_running w s) nodes = rw (tick_by w s l) (
              schedule-Progresses w s nodes o l.cap once
                (IsOrdered-Advances s.nodes nodes a l.ordered) (Rests-synced w s o l) left) in
            let same : SameLimits s (tick_running w s) =
              rw (tick_by w s l) (SameLimits-schedule w s nodes) in
            inr (
              record {
                works = p.same_status ∙ l.works;
                has_nodes = ground (
                  arith,
                  l.has_nodes,
                  length-node_ids s.nodes,
                  length-node_ids (tick_running w s).nodes,
                  ap length t.same_ids,
                );
                once = λ x. rw (t.same_ids) (l.once x);
                ordered = IsOrdered-Advances s.nodes (tick_running w s).nodes t l.ordered;
                well = p.well;
                unreviewed = same.same_review ∙ l.unreviewed;
                cap = rw (same.same_cap) l.cap;
              },
              omega (arith, p.fewer, waiting-sync_node_states w (home_of s) false s.nodes),
            )
      ]

  -- Ticks in a sequence of worlds.
  abbrev pub ticks : ℕ → (ℕ → World F) → GraphSpec F → GraphSpec F
  ticks zero w s = s
  ticks (suc k) w s = ticks k (λ i. w (suc i)) (process_graph (w 0) s)

  complete-stays :
      (k : ℕ) (w : ℕ → World F) (s : GraphSpec F)
      → s.status ≡ complete
      → (ticks k w s).status ≡ complete
  unfolding process_graph
  complete-stays zero w s h = h
  complete-stays (suc k) w s h =
      complete-stays k (λ i. w (suc i)) (process_by (w 0) s s.status)
        (ap (λ state. (process_by (w 0) s state).status) h ∙ h)

  first_tick : (w : World F) (s : GraphSpec F) → IsLive s → process_graph w s ≡ tick_running w s
  unfolding process_graph
  first_tick w s l = ap (process_by w s) l.works

  -- A live graph is complete one tick after the last node that waits was started.
  pub live-finishes :
      (k : ℕ) (w : ℕ → World F) (s : GraphSpec F)
      → ((i : ℕ) → Obliges (w i))
      → IsLive s
      → waiting s.nodes ≤ k
      → (ticks (suc k) w s).status ≡ complete
  live-finishes zero w s o l h =
      rw (first_tick (w 0) s l, ticks)
        (elim (IsLive-tick_running (w 0) s (o 0) l) [
          | inl finished ↦ finished
          | inr (l', fewer) ↦ absurd (omega arith)
        ])
  live-finishes (suc k) w s o l h =
      rw (first_tick (w 0) s l, ticks)
        (elim (IsLive-tick_running (w 0) s (o 0) l) [
          | inl finished ↦ complete-stays (suc k) (λ i. w (suc i)) (tick_running (w 0) s) finished
          | inr (l', fewer) ↦
              live-finishes k (λ i. w (suc i)) (tick_running (w 0) s) (λ i. o (suc i)) l'
                (omega arith)
        ])
