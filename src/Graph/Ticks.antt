-- ===== src/Graph/Ticks.antt =====
-- `launch_node`, `tick_running`, `tick_proposing` and `process_graph` (jmux/src/goal/graph.rs).
use jmux.Base.{
  ℕ, zero, suc, ◌+◌, ◌-◌, ◌==◌, ltb, ◌&&◌, ◌||◌, Bool, not, Option, none, some, List, [], ◌∷◌, ◌++◌,
  map, if◌then◌else◌, length, retain, all, any, Uuid,
}
use jmux.Base.Names.{listed}
use jmux.Graph.Home.{home_of}
use jmux.Base.Text.{Text, codes}
use jmux.Graph.{
  GraphState, NodeState, proposing, proposed, complete, paused, blocked, GraphNode, GraphSpec, node,
  update_node,
}
use jmux.Graph.Proposal.{Parsed, accepted, refused, crashed, unfinished, parse_proposal}
use jmux.Graph.Schedule.{
  World, Launch, not_launched, launched, is_pending, is_done, is_active, sync_node_states,
}

-- `trim_end_matches('/')`
abbrev trim_end_slashes : Text → Text
trim_end_slashes [] = []
trim_end_slashes (b ∷ bs) =
    let rest = trim_end_slashes bs in if length rest == 0 && (b == 47) then [] else b ∷ rest

abbrev pub worktree_path : Text → Text → Text
worktree_path base_cwd id = trim_end_slashes base_cwd ++ (codes "-worktrees/" ++ id)

abbrev pub branch_name : Text → Text → Text
branch_name name id = codes "graph/" ++ (name ++ (codes "/" ++ id))

-- `Result<(), String>` of `launch_node`, with the nodes after it.
pub data Launched (F : Type 0) : Type 0 where
  failed : Text → Launched F
  started : List (GraphNode F) → Launched F

module _ {F : Type 0} where
  -- What a node becomes when it is launched, and when that fails.
  unfoldable pub mark : Option Text → Option Text → Option Uuid → GraphNode F → GraphNode F
  mark branch worktree ws n = record n {
    status = NodeState.running;
    workspace = ws;
    branch = branch;
    worktree = worktree;
    detail = none;
  }

  unfoldable pub block : Text → GraphNode F → GraphNode F
  block e n = record n { status = blocked; detail = some e }

  -- The end of `launch_node`.
  abbrev pub mark_launched :
      Text → Option Text → Option Text → List (GraphNode F) → Launch → Launched F
  mark_launched id branch worktree nodes (not_launched e) = failed e
  mark_launched id branch worktree nodes (launched ws) =
      started (update_node nodes id (mark branch worktree ws))

  unfoldable pub launch_node : World F → GraphSpec F → Text → List (GraphNode F) → Launched F
  unfolding mark
  launch_node w spec id nodes = elim (node nodes id) [
    | none ↦ failed (codes "unknown node '" ++ (id ++ codes "'"))
    | some n ↦
        if spec.use_worktrees
        then (let path = worktree_path spec.base_cwd id in
            elim (w.add_worktree path) [
              | some e ↦ failed e
              | none ↦
                  mark_launched id (some (branch_name spec.name id)) (some path) nodes
                    (w.launch_goal n)
            ])
        else mark_launched id none none nodes (w.launch_goal n)
  ]

  -- The loop over the ready nodes.
  unfoldable pub launch_ready :
      World F → GraphSpec F → ℕ → List Text → List (GraphNode F) → List (GraphNode F)
  unfolding launch_node mark block
  launch_ready w spec slots [] nodes = nodes
  launch_ready w spec zero (id ∷ ready) nodes = nodes
  launch_ready w spec (suc slots) (id ∷ ready) nodes = elim (launch_node w spec id nodes) [
    | started nodes' ↦ launch_ready w spec slots ready nodes'
    | failed e ↦ launch_ready w spec (suc slots) ready (update_node nodes id (block e))
  ]

  -- `done_ids`
  abbrev pub done_ids : List (GraphNode F) → List Text
  done_ids nodes = map (λ n. n.id) (retain (λ n. is_done n.status) nodes)

  -- A pending node whose dependencies are all done.
  abbrev pub is_ready : List Text → GraphNode F → Bool
  is_ready finished n = is_pending n.status && all (listed finished) n.deps

  -- The nodes that run or wait for a review.
  abbrev pub active : List (GraphNode F) → ℕ
  active nodes = length (retain (λ n. is_active n.status) nodes)

  -- Nodes are left, and none of them can go on.
  abbrev pub is_stalled : List Text → List (GraphNode F) → Bool
  is_stalled finished nodes =
      any (λ n. is_active n.status || is_pending n.status) nodes
      && not (any (is_ready finished) nodes || any (λ n. is_active n.status) nodes)

  -- The rest of `tick_running`, after the nodes have followed their goal runs.
  unfoldable pub schedule : World F → GraphSpec F → List (GraphNode F) → GraphSpec F
  unfolding launch_ready
  schedule w spec nodes =
      if all (λ n. is_done n.status) nodes
      then record spec { status = complete; nodes = nodes }
      else (let finished = done_ids nodes in
          let ready = map (λ n. n.id) (retain (is_ready finished) nodes) in
          let after = launch_ready w spec (spec.max_concurrency - active nodes) ready nodes in
          record spec {
            status = if is_stalled finished after then paused else spec.status;
            nodes = after;
          })

  unfoldable pub tick_running : World F → GraphSpec F → GraphSpec F
  unfolding schedule sync_node_states
  tick_running w spec =
      if length spec.nodes == 0
      then record spec { status = proposing }
      else schedule w spec (sync_node_states w (home_of spec) spec.review_iterations spec.nodes)

  -- `proposal_wait_ticks += 1`. The counter is a `u32`, whose checked addition would panic after 2^32
  -- ticks of two seconds.
  abbrev wait_more : GraphSpec F → GraphSpec F
  wait_more spec = record spec { proposal_wait_ticks = spec.proposal_wait_ticks + 1 }

  -- Without a plan review, the plan is read again and started.
  abbrev pub start_by : GraphSpec F → Parsed F → GraphSpec F
  start_by spec (accepted nodes) = record spec { nodes = nodes; status = GraphState.running }
  start_by spec (refused e) = spec
  start_by spec crashed = spec
  start_by spec unfinished = spec

  abbrev pub start_plan : World F → GraphSpec F → GraphSpec F
  start_plan w spec = start_by spec (parse_proposal w.order w.proposal_again)

  -- What becomes of the graph by what the proposal is.
  abbrev pub try_by : World F → GraphSpec F → Parsed F → GraphSpec F
  try_by w spec (accepted nodes) =
      if spec.review then record spec { status = proposed } else start_plan w spec
  try_by w spec (refused e) = wait_more spec
  try_by w spec crashed = wait_more spec
  try_by w spec unfinished = wait_more spec

  abbrev pub try_proposal : World F → GraphSpec F → GraphSpec F
  try_proposal w spec = try_by w spec (parse_proposal w.order w.proposal)

  -- By when the proposal was written, and the least time that is accepted.
  abbrev pub wait_for : World F → GraphSpec F → Option ℕ → Option ℕ → GraphSpec F
  wait_for w spec none min = wait_more spec
  wait_for w spec (some mtime) none = try_proposal w spec
  wait_for w spec (some mtime) (some min) = if ltb mtime min then spec else try_proposal w spec

  unfoldable pub tick_proposing : World F → GraphSpec F → GraphSpec F
  tick_proposing w spec = wait_for w spec w.proposal_mtime spec.min_proposal_mtime

  abbrev pub process_by : World F → GraphSpec F → GraphState → GraphSpec F
  process_by w spec proposing = tick_proposing w spec
  process_by w spec GraphState.running = tick_running w spec
  process_by w spec s = spec

  unfoldable pub process_graph : World F → GraphSpec F → GraphSpec F
  unfolding tick_proposing tick_running
  process_graph w spec = process_by w spec spec.status
