-- ===== src/Graph/Commands.antt =====
-- What users do with a graph, and a restart (jmux/src/goal/graph.rs). The graph is looked up by its
-- name before; that lookup, the files and the messages to panels are not part of the model.
use jmux.Base.{
  ℕ, ◌==◌, Bool, true, false, not, Option, none, some, List, map, if◌then◌else◌, length, retain,
  any, is_some, Uuid,
}
use jmux.Base.Strs.{starts_with}
use jmux.Base.Text.{Text, codes, text_eq}
use jmux.Graph.{
  GraphState, NodeState, proposing, proposed, paused, stopped, pending, blocked, interrupted,
  GraphNode, GraphSpec, node, update_node,
}
use jmux.Graph.Proposal.{
  Contents, ProposalError, Parsed, accepted, refused, crashed, unfinished, parse_proposal,
}
use jmux.Graph.Space.{is_blank}
use jmux.Graph.Home.{home_of}
use jmux.Goal.{GoalRun, GraphLink, is_terminal, blocked_goal}
use jmux.Graph.Schedule.{Goals, World, is_active, is_review, finish_node, finish_all}

-- Why a command is refused.
pub data CommandError : Type 0 where
  no_plan_waiting plan_not_under_review planner_unknown planner_gone planner_not_running :
      CommandError
  no_approved_plan goal_empty unknown_node send_failed : CommandError
  bad_proposal : ProposalError → CommandError
  proposal_check_broken : CommandError

-- `matches!(status, Proposing | Proposed)`
abbrev pub is_under_review : GraphState → Bool
is_under_review proposing = true
is_under_review proposed = true
is_under_review s = false

-- The graph after a command, and its error.
abbrev pub Reply : Type 0 → Type 0
Reply F = GraphSpec F × Option CommandError

-- The link of the goal run in a workspace.
abbrev pub run_link : Option GoalRun → Option GraphLink
run_link none = none
run_link (some run) = run.graph

-- A blocked node with this detail waits for its merge.
abbrev pub awaits_merge_by : NodeState → Option Text → Bool
awaits_merge_by blocked (some d) = starts_with d (codes "merge")
awaits_merge_by s d = false

module _ {F : Type 0} where
  abbrev pub approve_by : GraphSpec F → Parsed F → Reply F
  approve_by spec (accepted nodes) =
      (record spec { nodes = nodes; status = GraphState.running }, none)
  approve_by spec (refused e) = (spec, some (bad_proposal e))
  approve_by spec crashed = (spec, some proposal_check_broken)
  approve_by spec unfinished = (spec, some proposal_check_broken)

  unfoldable pub approve_graph : (List Text → List Text) → Contents F → GraphSpec F → Reply F
  approve_graph order contents spec =
      if is_under_review spec.status
      then approve_by spec (parse_proposal order contents)
      else (spec, some no_plan_waiting)

  abbrev pub revise_by :
      (Uuid → Bool) → (Uuid → Bool) → Bool → ℕ → GraphSpec F → Option Uuid → Reply F
  revise_by has_panel agent_runs sent now spec none = (spec, some planner_unknown)
  revise_by has_panel agent_runs sent now spec (some ws) =
      if not (has_panel ws)
      then (spec, some planner_gone)
      else if not (agent_runs ws)
      then (spec, some planner_not_running)
      else (
        record spec { min_proposal_mtime = some now; status = proposing; proposal_wait_ticks = 0 },
        (if sent then none else some send_failed),
      )

  -- `has_panel`, `agent_runs` and `sent` are what the panel of the planner's workspace, its agent
  -- and the message to it come to; `now` is the time in seconds.
  unfoldable pub revise_graph : (Uuid → Bool) → (Uuid → Bool) → Bool → ℕ → GraphSpec F → Reply F
  revise_graph has_panel agent_runs sent now spec =
      if is_under_review spec.status
      then revise_by has_panel agent_runs sent now spec spec.orchestrator_workspace
      else (spec, some plan_not_under_review)

  unfoldable pub set_graph_state : GraphState → GraphSpec F → GraphSpec F
  set_graph_state s spec = record spec { status = s }

  abbrev pub pause_graph : GraphSpec F → GraphSpec F
  pause_graph spec = set_graph_state paused spec

  -- The part of `stop_graph` on the graph.
  abbrev pub stop_graph : GraphSpec F → GraphSpec F
  stop_graph spec = set_graph_state stopped spec

  abbrev pub resume_by : GraphNode F → NodeState → GraphNode F
  resume_by n interrupted = record n { status = pending; detail = none }
  resume_by n s = n

  -- The loop of `resume_graph`, on one node.
  unfoldable pub resume_node : GraphNode F → GraphNode F
  resume_node n = resume_by n n.status

  abbrev pub awaits_merge : GraphNode F → Bool
  awaits_merge n = awaits_merge_by n.status n.detail

  unfoldable pub resume_graph : World F → GraphSpec F → Reply F
  unfolding resume_node finish_all
  resume_graph w spec = if length spec.nodes == 0 then (spec, some no_approved_plan) else (
    record spec {
      nodes =
          finish_all w (home_of spec) (map (λ n. n.id) (retain awaits_merge spec.nodes))
            (map resume_node spec.nodes);
      status = GraphState.running;
    },
    none,
  )

  abbrev pub accept_by : World F → GraphSpec F → Option GraphLink → GraphSpec F
  accept_by w spec none = spec
  accept_by w spec (some link) =
      if text_eq link.graph spec.name
      then record spec { nodes = finish_node w (home_of spec) link.node spec.nodes }
      else spec

  -- `accept_node`, by the workspace of a goal run.
  unfoldable pub accept_node : World F → Uuid → GraphSpec F → GraphSpec F
  accept_node w ws spec = accept_by w spec (run_link (w.goals ws))

  unfoldable pub continue_review : GraphNode F → GraphNode F
  continue_review n =
      if is_review n.status then record n { status = NodeState.running; detail = none } else n

  abbrev pub continue_by : GraphSpec F → Option GraphLink → GraphSpec F
  continue_by spec none = spec
  continue_by spec (some link) =
      if text_eq link.graph spec.name
      then record spec { nodes = update_node spec.nodes link.node continue_review }
      else spec

  -- `continue_node`, by the workspace of a goal run.
  unfoldable pub continue_node : World F → Uuid → GraphSpec F → GraphSpec F
  continue_node w ws spec = continue_by spec (run_link (w.goals ws))

  abbrev pub write_goal : Text → GraphNode F → GraphNode F
  write_goal goal_text n = record n { goal = goal_text }

  unfoldable pub update_node_goal : Text → Text → GraphSpec F → Reply F
  update_node_goal id goal_text spec =
      if is_blank goal_text
      then (spec, some goal_empty)
      else if is_some (node spec.nodes id)
      then (record spec { nodes = update_node spec.nodes id (write_goal goal_text) }, none)
      else (spec, some unknown_node)

  abbrev pub write_pos : F × F → GraphNode F → GraphNode F
  write_pos at n = record n { pos = some at }

  -- `update_node_position` where the node stands in the graph. Where it does not, the proposal is
  -- edited instead.
  unfoldable pub update_node_position : Text → F × F → GraphSpec F → GraphSpec F
  update_node_position id at spec = record spec { nodes = update_node spec.nodes id (write_pos at) }

  unfoldable pub interrupt_node : GraphNode F → GraphNode F
  interrupt_node n =
      if is_active n.status
      then record n {
        status = interrupted;
        detail = some (codes "interrupted by a restart");
        workspace = none;
      }
      else n

  -- The reconciliation in `ensure_loaded`. The wait counter is not in the file that was read.
  unfoldable pub reload : GraphSpec F → GraphSpec F
  unfolding interrupt_node
  reload spec = record spec {
    nodes = map interrupt_node spec.nodes;
    status = elim (spec.status) [
      | GraphState.running ↦
          if any (λ n. is_active n.status) spec.nodes then paused else GraphState.running
      | s ↦ s
    ];
    orchestrator_workspace = none;
    proposal_wait_ticks = 0;
  }

-- `stop_graph` on a goal run that has a link.
abbrev pub stop_linked : Text → GoalRun → Option GraphLink → GoalRun
stop_linked name run none = run
stop_linked name run (some link) =
    if text_eq link.graph name
    then (if is_terminal run.status
        then run
        else record run { status = blocked_goal (codes "graph stopped") })
    else run

abbrev pub stop_run : Text → Option GoalRun → Option GoalRun
stop_run name none = none
stop_run name (some run) = some (stop_linked name run run.graph)

-- `stop_graph` on the goal runs.
unfoldable pub stop_runs : Text → Goals → Goals
stop_runs name goals ws = stop_run name (goals ws)
