-- ===== src/Graph.antt =====
-- Goal graphs (jmux/src/goal/graph.rs): the nodes, the graph and what a proposal holds.
pub mod Acyclic
pub mod Approved
pub mod Cap
pub mod Commands
pub mod Ends
pub mod Finishes
pub mod Grows
pub mod Home
pub mod InOrder
pub mod Kahn
pub mod Launching
pub mod Deps
pub mod Live
pub mod Lookup
pub mod Moves
pub mod Nodes
pub mod Oblige
pub mod Order
pub mod Plan
pub mod Progress
pub mod Proposal
pub mod Reported
pub mod Relax
pub mod Rounds
pub mod Schedule
pub mod Sound
pub mod SoundCommands
pub mod SoundEdits
pub mod SoundTicks
pub mod Space
pub mod Start
pub mod Started
pub mod Steps
pub mod Stuck
pub mod Ticks
pub mod Waiting
pub mod Unmet
use jmux.Base.{
  ℕ, Bool, true, false, Option, none, some, List, [], ◌∷◌, ◌++◌, Uuid, find, update_first,
}
use jmux.Base.Text.{Text, codes, text_eq}

pub data GraphState : Type 0 where
  proposing proposed running complete paused stopped : GraphState

pub data NodeState : Type 0 where
  pending running review done blocked interrupted : NodeState

-- `F` is the type of the floats of a canvas position.
pub record GraphNode (F : Type 0) : Type 0 where
  pub id : Text
  pub title : Text
  pub goal : Text
  pub deps : List Text
  pub runner : Option Text
  pub status : NodeState
  pub workspace : Option Uuid
  pub iteration : ℕ  -- u32
  pub branch : Option Text
  pub worktree : Option Text
  pub detail : Option Text
  pub pos : Option (F × F)

pub record GraphSpec (F : Type 0) : Type 0 where
  pub name : Text
  pub base_cwd : Text
  pub goal_path : Text
  pub status : GraphState
  pub max_concurrency : ℕ  -- u32
  pub max_iterations : ℕ  -- u32
  pub review : Bool
  pub review_iterations : Bool
  pub use_worktrees : Bool
  pub output_dir : Text
  pub permission_mode : Text
  pub runner : Option Text
  pub orchestrator_workspace : Option Uuid
  pub group_id : Option Uuid
  pub min_proposal_mtime : Option ℕ  -- u64
  pub proposal_wait_ticks : ℕ  -- u32
  pub nodes : List (GraphNode F)

-- A node of `proposal.json`.
pub record ProposalNode (F : Type 0) : Type 0 where
  pub id : Text
  pub title : Text
  pub goal : Text
  pub deps : List Text
  pub runner : Option Text
  pub pos : Option (F × F)

module _ {F : Type 0} where
  -- `..GraphNode::default()`, with the identifier, the goal and the dependencies.
  unfoldable pub default_node : GraphNode F
  default_node = record {
    id = [];
    title = [];
    goal = [];
    deps = [];
    runner = none;
    status = pending;
    workspace = none;
    iteration = 0;
    branch = none;
    worktree = none;
    detail = none;
    pos = none;
  }

  -- `GraphSpec::node`
  abbrev pub node : List (GraphNode F) → Text → Option (GraphNode F)
  node nodes id = find (λ n. text_eq n.id id) nodes

  -- A write through `GraphSpec::node_mut`.
  abbrev pub update_node :
      List (GraphNode F) → Text → (GraphNode F → GraphNode F) → List (GraphNode F)
  update_node nodes id f = update_first (λ n. text_eq n.id id) f nodes

-- `graph_state_label` and `node_state_label`: what is displayed.
abbrev graph_state_label : GraphState → Text
graph_state_label proposing = codes "planning" ++ 226 ∷ 128 ∷ 166 ∷ []  -- an ellipsis
graph_state_label proposed = codes "plan review"
graph_state_label GraphState.running = codes "working"
graph_state_label complete = codes "finished"
graph_state_label paused = codes "paused"
graph_state_label stopped = codes "stopped"

abbrev node_state_label : NodeState → Text
node_state_label pending = codes "waiting its turn"
node_state_label NodeState.running = codes "working"
node_state_label NodeState.review = codes "waiting for your review"
node_state_label done = codes "finished"
node_state_label blocked = codes "needs you"
node_state_label interrupted = codes "interrupted by a restart"
