-- ===== src/Graph/Steps.antt =====
-- All that happens to a graph, as steps (jmux/src/goal/graph.rs).
use jmux.Base.{ℕ, ◌≡◌, arith, Bool, List, [], Uuid}
use jmux.Base.Text.{Text}
use jmux.Graph.{GraphSpec}
use jmux.Graph.Commands.{
  approve_graph, revise_graph, pause_graph, stop_graph, resume_graph, accept_node, continue_node,
  update_node_goal, update_node_position, reload, set_graph_state,
}
use jmux.Graph.Proposal.{Contents}
use jmux.Graph.Schedule.{World}
use jmux.Graph.Ticks.{process_graph}
use jmux.Graph.Sound.{Permutes, WasLaunched, IsSound, SpecIsSound}
use jmux.Graph.SoundTicks.{process_by-IsSound}
use jmux.Graph.SoundCommands.{approve_graph-IsSound, revise_graph-IsSound, resume_graph-IsSound}
use jmux.Graph.SoundEdits.{
  accept_node-IsSound, continue_node-IsSound, update_node_goal-IsSound,
  update_node_position-IsSound, reload-IsSound,
}

module _ {F : Type 0} where
  pub data Step : GraphSpec F → GraphSpec F → Type 0 where
    by_tick : (w : World F) (s : GraphSpec F) → Permutes w.order → Step s (process_graph w s)
    by_approve :
        (order : List Text → List Text) (contents : Contents F) (s : GraphSpec F)
        → Permutes order
        → Step s (approve_graph order contents s).0
    by_revise :
        (has_panel agent_runs : Uuid → Bool) (sent : Bool) (now : ℕ) (s : GraphSpec F)
        → Step s (revise_graph has_panel agent_runs sent now s).0
    by_pause : (s : GraphSpec F) → Step s (pause_graph s)
    by_stop : (s : GraphSpec F) → Step s (stop_graph s)
    by_resume : (w : World F) (s : GraphSpec F) → Step s (resume_graph w s).0
    by_accept :
        (w : World F) (ws : Uuid) (s : GraphSpec F)
        → WasLaunched w ws s
        → Step s (accept_node w ws s)
    by_continue : (w : World F) (ws : Uuid) (s : GraphSpec F) → Step s (continue_node w ws s)
    by_goal : (id goal_text : Text) (s : GraphSpec F) → Step s (update_node_goal id goal_text s).0
    by_drag : (id : Text) (at : F × F) (s : GraphSpec F) → Step s (update_node_position id at s)
    by_restart : (s : GraphSpec F) → Step s (reload s)

  -- The graphs that are reached from one.
  pub data Reaches (s : GraphSpec F) : GraphSpec F → Type 0 where
    stays : Reaches s s
    goes : (t u : GraphSpec F) → Reaches s t → Step t u → Reaches s u

  Step-IsSound : (s t : GraphSpec F) → Step s t → SpecIsSound s → SpecIsSound t
  unfolding process_graph set_graph_state
  Step-IsSound s _ (by_tick w _ same) h = process_by-IsSound w s s.status same h
  Step-IsSound s _ (by_approve order contents _ same) h =
      approve_graph-IsSound order contents s same h
  Step-IsSound s _ (by_revise has_panel agent_runs sent now _) h =
      revise_graph-IsSound has_panel agent_runs sent now s h
  Step-IsSound s _ (by_pause _) h = h
  Step-IsSound s _ (by_stop _) h = h
  Step-IsSound s _ (by_resume w _) h = resume_graph-IsSound w s h
  Step-IsSound s _ (by_accept w ws _ launched) h = accept_node-IsSound w ws s launched h
  Step-IsSound s _ (by_continue w ws _) h = continue_node-IsSound w ws s h
  Step-IsSound s _ (by_goal id goal_text _) h = update_node_goal-IsSound id goal_text s h
  Step-IsSound s _ (by_drag id at _) h = update_node_position-IsSound id at s h
  Step-IsSound s _ (by_restart _) h = reload-IsSound s h

  -- A new graph has no nodes yet.
  IsSound-new : (limit : ℕ) → IsSound {F = F} limit []
  IsSound-new limit = record {
    once = λ x. omega arith;
    in_order = λ x waits n found. absurd (cc (found));
    capped = omega arith;
  }

  -- In every graph that ticks, approval, revision, pausing, stopping, resuming, accepting,
  -- continuing, edits of goals and positions and restarts reach from a graph without nodes, no
  -- identifier stands twice, each node that no longer waits for its turn has all its dependencies
  -- done, and no more nodes run or wait for a review than `max_concurrency`. Each step of a tick or
  -- an approval visits each key of the map of indegrees once, and a goal run is accepted for a node
  -- that does not wait for its turn.
  pub reachable-IsSound :
      (s t : GraphSpec F) → s.nodes ≡ [] → Reaches s t → IsSound t.max_concurrency t.nodes
  reachable-IsSound s _ new stays = rw (new) (IsSound-new s.max_concurrency)
  reachable-IsSound s u new (goes t _ r step) = Step-IsSound t u step (reachable-IsSound s t new r)
