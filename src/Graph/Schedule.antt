-- ===== src/Graph/Schedule.antt =====
-- The scheduler on nodes (jmux/src/goal/graph.rs): what it reads of goal runs, how it follows and
-- finishes nodes, and how it launches them. Notifications, and the files that it writes, are not
-- part of the model.
use jmux.Base.{
  ℕ, ltb, ◌&&◌, ◌||◌, Bool, true, false, not, Option, none, some, List, [], ◌∷◌, ◌++◌, map,
  if◌then◌else◌, retain, Uuid,
}
use jmux.Base.Text.{Text, codes}
use jmux.Goal.{GoalStatus, in_progress, finished_goal, needs_attention, blocked_goal, GoalRun}
use jmux.Graph.{
  NodeState, pending, running, review, done, blocked, interrupted, GraphNode, update_node,
}
use jmux.Graph.Home.{Home, can_merge}
use jmux.Graph.Proposal.{Contents}

-- `SharedState::goals`
abbrev pub Goals : Type 0
Goals = Uuid → Option GoalRun

-- What launching the goal run of a node comes to: an error, or its workspace.
pub data Launch : Type 0 where
  not_launched : Text → Launch
  launched : Option Uuid → Launch

-- What a tick meets outside the graph. A `some` of `add_worktree` and `merge` is an error.
pub record World (F : Type 0) : Type 0 where
  pub goals : Goals
  pub add_worktree : Text → Option Text  -- by the path of the worktree
  pub launch_goal : GraphNode F → Launch
  pub base_status : Text → Option Text  -- of git, when the node with this identifier is merged
  pub merge : Text → Option Text  -- by the branch
  pub proposal_mtime : Option ℕ
  pub proposal : Contents F
  pub proposal_again : Contents F  -- what a second reading gets
  pub order : List Text → List Text  -- of the map in the cycle check

abbrev pub is_pending : NodeState → Bool
is_pending pending = true
is_pending s = false

abbrev pub is_running : NodeState → Bool
is_running running = true
is_running s = false

abbrev pub is_review : NodeState → Bool
is_review review = true
is_review s = false

abbrev pub is_done : NodeState → Bool
is_done done = true
is_done s = false

-- `matches!(status, Running | Review)`
abbrev pub is_active : NodeState → Bool
is_active s = is_running s || is_review s

abbrev pub max : ℕ → ℕ → ℕ
max a b = if ltb a b then b else a

abbrev pub merge_conflict : Text → Text
merge_conflict e = codes "merge conflict: " ++ e

-- The three bytes are a dash.
unfoldable merge_waiting : Text → Text
merge_waiting name =
    codes "merge waiting: your checkout has uncommitted changes "
    ++ (226 ∷ 128 ∷ 148 ∷ codes " commit or stash them, then: jmux graph resume " ++ name)

abbrev run_is_done : Option GoalRun → Bool
run_is_done none = false
run_is_done (some run) = elim (run.status) [ finished_goal ↦ true | _ ↦ false ]

module _ {F : Type 0} where
  -- The run of a node.
  abbrev pub run_of : Goals → GraphNode F → Option GoalRun
  run_of goals n = elim (n.workspace) [ none ↦ none | some ws ↦ goals ws ]

  abbrev pub mark_done : GraphNode F → GraphNode F
  mark_done n = record n { status = done; detail = none }

  abbrev pub hold : Text → GraphNode F → GraphNode F
  hold e n = record n { status = blocked; detail = some e }

  -- The result of merging the branch.
  abbrev pub conclude_merge : GraphNode F → Option Text → GraphNode F
  conclude_merge n none = mark_done n
  conclude_merge n (some e) = hold (merge_conflict e) n

  -- The merge, by the node's worktree and branch.
  unfoldable pub merge_branch :
      World F → Home → GraphNode F → Option Text → Option Text → GraphNode F
  unfolding can_merge merge_waiting
  merge_branch w home n none branch = mark_done n
  merge_branch w home n (some worktree) none = mark_done n
  merge_branch w home n (some worktree) (some branch) =
      if can_merge (w.base_status n.id) home.own_dir
      then conclude_merge n (w.merge branch)
      else hold (merge_waiting home.name) n

  unfoldable pub merged : World F → Home → GraphNode F → GraphNode F
  unfolding merge_branch
  merged w home n = merge_branch w home n n.worktree n.branch

  abbrev pub last_iteration : GraphNode F → Option GoalRun → ℕ
  last_iteration n none = n.iteration
  last_iteration n (some run) = max run.iteration n.iteration

  -- `finish_node`, on the node.
  unfoldable pub finish : World F → Home → GraphNode F → GraphNode F
  unfolding merged
  finish w home n =
      if is_done n.status
      then n
      else merged w home (record n { iteration = last_iteration n (run_of w.goals n) })

  unfoldable pub finish_node : World F → Home → Text → List (GraphNode F) → List (GraphNode F)
  unfolding finish
  finish_node w home id nodes = update_node nodes id (finish w home)

  unfoldable pub finish_all : World F → Home → List Text → List (GraphNode F) → List (GraphNode F)
  unfolding finish_node
  finish_all w home [] nodes = nodes
  finish_all w home (id ∷ to_finish) nodes =
      finish_all w home to_finish (finish_node w home id nodes)

  abbrev pub interrupt : Text → GraphNode F → GraphNode F
  interrupt why n = record n { status = interrupted; detail = some why }

  -- What the status of its goal run makes of a node.
  abbrev pub follow_status : Bool → GraphNode F → GoalStatus → GraphNode F
  follow_status review_iterations n in_progress = n
  follow_status review_iterations n (needs_attention d) = n
  follow_status review_iterations n finished_goal =
      if review_iterations then record n { status = review } else n
  follow_status review_iterations n (blocked_goal d) = hold d n

  abbrev pub follow_run : Bool → GraphNode F → Option GoalRun → GraphNode F
  follow_run review_iterations n none =
      interrupt (codes "its workspace was closed, or jmux restarted") n
  follow_run review_iterations n (some run) =
      follow_status review_iterations (record n { iteration = run.iteration }) run.status

  abbrev pub follow : World F → Bool → GraphNode F → Option Uuid → GraphNode F
  follow w review_iterations n none = interrupt (codes "no workspace to watch") n
  follow w review_iterations n (some ws) = follow_run review_iterations n (w.goals ws)

  -- The loop of `sync_node_states`, on one node; whether the node is to be finished is by itself.
  unfoldable pub sync_node : World F → Bool → GraphNode F → GraphNode F
  sync_node w review_iterations n =
      if not (is_running n.status) then n else follow w review_iterations n n.workspace

  abbrev pub to_finish : World F → Bool → GraphNode F → Bool
  to_finish w review_iterations n =
      is_running n.status && (not review_iterations && run_is_done (run_of w.goals n))

  unfoldable pub sync_node_states : World F → Home → Bool → List (GraphNode F) → List (GraphNode F)
  unfolding sync_node finish_all
  sync_node_states w home review_iterations nodes =
      finish_all w home (map (λ n. n.id) (retain (to_finish w review_iterations) nodes))
        (map (sync_node w review_iterations) nodes)
