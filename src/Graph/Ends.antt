-- ===== src/Graph/Ends.antt =====
-- When a graph is complete or stopped (jmux/src/goal/graph.rs).
use jmux.Base.{
  ◌==◌, ◌≡◌, ◌<◌, refl, inl, inr, arith, ap, ◌∙◌, Bool, true, false, some, List, length, all,
  if◌then◌else◌, Bool-cases, Uuid,
}
use jmux.Graph.Home.{home_of}
use jmux.Base.Text.{Text, text_eq}
use jmux.Graph.{GraphState, complete, paused, GraphNode, GraphSpec}
use jmux.Graph.Commands.{stop_linked, stop_run, stop_runs}
use jmux.Goal.{GoalRun, GraphLink, is_terminal}
use jmux.Graph.Schedule.{Goals, World, is_done, sync_node_states}
use jmux.Graph.Ticks.{schedule, tick_running}

not_complete :
    (state : GraphState) (stalled : Bool)
    → state ≡ GraphState.running
    → ¬ ((if stalled then paused else state) ≡ complete)
not_complete state true works h = cc
not_complete state false works h = cc

module _ {F : Type 0} where
  schedule-complete :
      (w : World F) (s : GraphSpec F) (nodes : List (GraphNode F))
      → s.status ≡ GraphState.running
      → (schedule w s nodes).status ≡ complete
      → all (λ n. is_done n.status) (schedule w s nodes).nodes ≡ true
  unfolding schedule
  schedule-complete w s nodes works h = elim (Bool-cases (all (λ n. is_done n.status) nodes)) [
    | inl finished ↦ rw (finished) finished
    | inr left ↦ absurd (not_complete s.status _ works (rw (left) at h))
  ]

  -- If a tick of a running graph completes it, the graph has a node, and all nodes are done.
  pub tick_running-complete :
      (w : World F) (s : GraphSpec F)
      → s.status ≡ GraphState.running
      → (tick_running w s).status ≡ complete
      → (0 < length s.nodes) × (all (λ n. is_done n.status) (tick_running w s).nodes ≡ true)
  unfolding tick_running
  tick_running-complete w s works h = elim (Bool-cases (length s.nodes == 0)) [
    | inl empty ↦ absurd (cc (rw (empty) at h))
    | inr some_nodes ↦ (
      ground arith,
      rw (some_nodes) (
          schedule-complete w s (sync_node_states w (home_of s) s.review_iterations s.nodes) works
            (rw (some_nodes) at h)),
    )
  ]

stop_linked-terminal :
    (name : Text) (run : GoalRun) (link : GraphLink)
    → text_eq link.graph name ≡ true
    → is_terminal (stop_linked name run (some link)).status ≡ true
stop_linked-terminal name run link same = elim (Bool-cases (is_terminal run.status)) [
  | inl ended ↦ rw (same, ended) ended
  | inr going ↦ rw (same, going) refl
]

-- Stopping a graph leaves each of its goal runs in a terminal state.
stop_runs-terminal :
    (name : Text) (goals : Goals) (ws : Uuid) (run : GoalRun) (link : GraphLink)
    → goals ws ≡ some run
    → run.graph ≡ some link
    → text_eq link.graph name ≡ true
    → (stopped : GoalRun) × (stop_runs name goals ws ≡ some stopped)
      × (is_terminal stopped.status ≡ true)
unfolding stop_runs
stop_runs-terminal name goals ws run link found linked same = (
  stop_linked name run (some link),
  ap (stop_run name) found ∙ ap (λ l. some (stop_linked name run l)) linked,
  stop_linked-terminal name run link same,
)
