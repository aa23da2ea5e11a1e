-- ===== src/Tests/Graphs.antt =====
-- Two plans, a graph, and the theorems on goal graphs applied to them.
use jmux.Base.{
  ℕ, ◌≡◌, ◌<◌, ◌↔◌, refl, arith, true, false, Option, none, some, List, [], ◌∷◌, map, length, all,
  ◌++◌, Uuid,
}
use jmux.Base.Text.{Text, codes}
use jmux.Graph.{
  GraphState, NodeState, proposing, complete, paused, done, GraphNode, GraphSpec, ProposalNode,
  default_node,
}
use jmux.Graph.Acyclic.{Acyclic, count_seen-Acyclic}
use jmux.Graph.Approved.{approve_graph-finishes}
use jmux.Graph.Commands.{approve_graph, resume_graph}
use jmux.Graph.Ends.{tick_running-complete}
use jmux.Graph.Stuck.{IsStuck, reachable-IsStuck}
use jmux.Graph.Home.{validate_output_dir, output_dir_good, base_is_clean, can_merge}
use jmux.Graph.InOrder.{Advances}
use jmux.Graph.Kahn.{finished, count_seen}
use jmux.Graph.Live.{ticks}
use jmux.Graph.Lookup.{Once}
use jmux.Graph.Oblige.{Obliges}
use jmux.Graph.Order.{tick_running-Advances}
use jmux.Graph.Plan.{IsPlan, IsChecked-of, Verdict, parse_proposal-Verdict, parse_proposal-IsPlan}
use jmux.Graph.Proposal.{
  Contents, proposal, has_cycle, accepted, refused, plan_node, parse_proposal, message, empty_goal,
  valid_node_id,
}
use jmux.Goal.{GoalRun, finished_goal}
use jmux.Tests.Runs.{claude_run}
use jmux.Graph.Schedule.{World, launched, is_done}
use jmux.Graph.Sound.{IsSound}
use jmux.Graph.Space.{is_blank, trim}
use jmux.Graph.Steps.{stays, goes, by_approve, by_tick, by_resume, reachable-IsSound}
use jmux.Graph.Ticks.{tick_running, process_graph}

abbrev plan_item : Text → List Text → ProposalNode ℕ
plan_item id deps = record {
  id = id;
  title = [];
  goal = codes "do it";
  deps = deps;
  runner = none;
  pos = none;
}

-- `b` needs `a`.
abbrev two_steps : List (ProposalNode ℕ)
two_steps = plan_item (codes "b") (codes "a" ∷ []) ∷ plan_item (codes "a") [] ∷ []

-- Each needs the other.
abbrev circle : List (ProposalNode ℕ)
circle = plan_item (codes "a") (codes "b" ∷ []) ∷ plan_item (codes "b") (codes "a" ∷ []) ∷ []

abbrev as_is : List Text → List Text
as_is xs = xs

two_steps-accepted : parse_proposal as_is (proposal two_steps) ≡ accepted (map plan_node two_steps)
unfolding parse_proposal jmux.Graph.Proposal.check_node valid_node_id jmux.Graph.Proposal.check_deps
two_steps-accepted = refl

circle-refused : parse_proposal as_is (proposal circle) ≡ refused has_cycle
unfolding parse_proposal jmux.Graph.Proposal.check_node valid_node_id jmux.Graph.Proposal.check_deps
circle-refused = refl

node_ids-valid :
    (valid_node_id (codes "step-1_b") ≡ true)
    × (valid_node_id (codes "../evil") ≡ false)
    × (valid_node_id [] ≡ false)
unfolding valid_node_id
node_ids-valid = (refl, refl, refl)

-- A space, a no-break space and an ideographic space.
blank-spaces : is_blank (32 ∷ 194 ∷ 160 ∷ 227 ∷ 128 ∷ 128 ∷ []) ≡ true
blank-spaces = refl

trim-both : trim (32 ∷ 194 ∷ 160 ∷ 97 ∷ 32 ∷ 98 ∷ 10 ∷ []) ≡ 97 ∷ 32 ∷ 98 ∷ []
trim-both = refl

output_dir-cleaned :
    validate_output_dir (codes " ./docs//roadmap/ ") ≡ output_dir_good (codes "docs/roadmap")
unfolding validate_output_dir
output_dir-cleaned = refl

base_is_clean-tests :
    (base_is_clean [] (codes "d/g/") ≡ true)
    × (base_is_clean
          (codes "?? d/g/graph.json" ++ 10 ∷ codes " M d/g/proposal.json" ++ 10 ∷ [])
          (codes "d/g/")
        ≡ true)
    × (base_is_clean (codes "?? d/g") (codes "d/g/") ≡ true)
    × (base_is_clean (codes " M src/main.rs") (codes "d/g/") ≡ false)
    × (base_is_clean (codes "R  d/g/a.rs -> b.rs") (codes "d/g/") ≡ false)
unfolding base_is_clean
base_is_clean-tests = (refl, refl, refl, refl, refl)

two_steps-IsPlan : IsPlan two_steps
two_steps-IsPlan = (parse_proposal-IsPlan as_is (λ xs x. refl) two_steps).0 two_steps-accepted

parse_proposal-IsPlan_example :
    (parse_proposal as_is (proposal two_steps) ≡ accepted (map plan_node two_steps))
    ↔ IsPlan two_steps
parse_proposal-IsPlan_example = parse_proposal-IsPlan as_is (λ xs x. refl) two_steps

parse_proposal-Verdict_example : Verdict circle (parse_proposal as_is (proposal circle))
parse_proposal-Verdict_example = parse_proposal-Verdict as_is (λ xs x. refl) circle

count_seen-Acyclic_example :
    (seen : ℕ) × (count_seen as_is two_steps ≡ finished seen)
    × ((seen ≡ length two_steps) ↔ Acyclic two_steps)
count_seen-Acyclic_example =
    count_seen-Acyclic two_steps
      (IsChecked-of two_steps two_steps-IsPlan.once two_steps-IsPlan.sound) as_is (λ xs x. refl)

-- A graph whose plan is awaited.
abbrev new_graph : GraphSpec ℕ
new_graph = record {
  name = codes "g";
  base_cwd = codes "/repo";
  goal_path = codes "/repo/goal.md";
  status = proposing;
  max_concurrency = 1;
  max_iterations = 4;
  review = true;
  review_iterations = false;
  use_worktrees = true;
  output_dir = codes "docs";
  permission_mode = [];
  runner = none;
  orchestrator_workspace = some 7;
  group_id = none;
  min_proposal_mtime = none;
  proposal_wait_ticks = 0;
  nodes = [];
}

abbrev working_run : GoalRun
working_run = record claude_run { graph = some record { graph = codes "g"; node = codes "a" } }

abbrev ended_run : GoalRun
ended_run = record working_run { status = finished_goal }

-- Every launch succeeds in workspace 5, every run is done, and every merge succeeds.
abbrev pub good_world : World ℕ
good_world = record {
  goals = λ ws. some ended_run;
  add_worktree = λ path. none;
  launch_goal = λ n. launched (some 5);
  base_status = λ id. some [];
  merge = λ branch. none;
  proposal_mtime = some 9;
  proposal = proposal two_steps;
  proposal_again = proposal two_steps;
  order = as_is;
}

good_world-Obliges : Obliges good_world
unfolding can_merge
good_world-Obliges = record {
  runs = λ ws. (ended_run, refl, refl);
  worktrees = λ path. refl;
  launches = λ n. (5, refl);
  clean = λ id own_dir. refl;
  merges = λ branch. refl;
}

approve_graph-finishes_example :
    (ticks 3 (λ i. good_world) (approve_graph as_is (proposal two_steps) new_graph).0).status
    ≡ complete
approve_graph-finishes_example =
    approve_graph-finishes as_is two_steps new_graph (λ i. good_world) (λ xs x. refl)
      two_steps-IsPlan refl refl (omega arith) (λ i. good_world-Obliges)

abbrev approved_graph : GraphSpec ℕ
unfolding approve_graph
approved_graph = (approve_graph as_is (proposal two_steps) new_graph).0

reachable-IsSound_example :
    IsSound
      (process_graph good_world approved_graph).max_concurrency
      (process_graph good_world approved_graph).nodes
unfolding approve_graph approved_graph
reachable-IsSound_example =
    reachable-IsSound new_graph (process_graph good_world approved_graph) refl (
      goes approved_graph (process_graph good_world approved_graph)
        (goes new_graph approved_graph stays
          (by_approve as_is (proposal two_steps) new_graph (λ xs x. refl)))
        (by_tick good_world approved_graph (λ xs x. refl)))

abbrev running_graph : Option Uuid → NodeState → GraphSpec ℕ
unfolding default_node
running_graph ws state = record new_graph {
  status = GraphState.running;
  nodes = record default_node { id = codes "a"; status = state; workspace = ws } ∷ [];
}

one_node-Once : (ws : Option Uuid) (state : NodeState) → Once (running_graph ws state).nodes
unfolding running_graph
one_node-Once ws state x = ground arith

tick_running-Advances_example :
    Advances
      (running_graph (some 5) NodeState.running).nodes
      (tick_running good_world (running_graph (some 5) NodeState.running)).nodes
tick_running-Advances_example =
    tick_running-Advances good_world (running_graph (some 5) NodeState.running)
      (one_node-Once (some 5) NodeState.running)

tick_running-complete_example :
    (0 < length (running_graph (some 5) NodeState.running).nodes)
    × (all
          (λ n. is_done n.status)
          (tick_running good_world (running_graph (some 5) NodeState.running)).nodes
        ≡ true)
unfolding running_graph tick_running
tick_running-complete_example =
    tick_running-complete good_world (running_graph (some 5) NodeState.running) refl refl

abbrev paused_graph : GraphSpec ℕ
paused_graph = record new_graph { status = paused }

reachable-IsStuck_example :
    IsStuck (resume_graph good_world (process_graph good_world paused_graph)).0
reachable-IsStuck_example =
    reachable-IsStuck paused_graph
      (resume_graph good_world (process_graph good_world paused_graph)).0 refl refl
      (goes (process_graph good_world paused_graph)
        (resume_graph good_world (process_graph good_world paused_graph)).0
        (goes paused_graph (process_graph good_world paused_graph) stays
          (by_tick good_world paused_graph (λ xs x. refl)))
        (by_resume good_world (process_graph good_world paused_graph)))
