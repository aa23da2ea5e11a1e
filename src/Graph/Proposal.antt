-- ===== src/Graph/Proposal.antt =====
-- `parse_proposal` and `valid_node_id` (jmux/src/goal/graph.rs): a proposal becomes a plan.
use jmux.Base.{
  ℕ, ◌==◌, ltb, leb, ◌&&◌, ◌||◌, Bool, true, not, Option, none, some, List, [], ◌∷◌, ◌++◌, map,
  if◌then◌else◌, length,
}
use jmux.Base.Names.{listed, to_set}
use jmux.Base.Text.{Text, codes, text_eq}
use jmux.Graph.{GraphNode, ProposalNode, default_node}
use jmux.Graph.Space.{is_blank}
use jmux.Graph.Kahn.{Outcome, finished, panicked, out_of_fuel, ids, count_seen}

-- What the file holds; reading it and its JSON are not part of the model.
pub data Contents (F : Type 0) : Type 0 where
  unreadable : Text → Contents F
  malformed : Text → Contents F
  proposal : List (ProposalNode F) → Contents F

pub data ProposalError : Type 0 where
  cannot_read invalid_file : Text → ProposalError
  no_nodes too_many_nodes duplicate_ids : ProposalError
  invalid_id empty_goal : Text → ProposalError
  unknown_dep : Text → Text → ProposalError
  self_dep : Text → ProposalError
  dep_twice : Text → Text → ProposalError
  has_cycle : ProposalError

-- The texts of the errors.
abbrev pub message : ProposalError → Text
message (cannot_read e) = codes "cannot read proposal: " ++ e
message (invalid_file e) = codes "proposal.json is invalid: " ++ e
message no_nodes = codes "proposal has no nodes"
message too_many_nodes = codes "proposal has too many nodes (max 50)"
message duplicate_ids = codes "duplicate node ids"
message (invalid_id id) =
    codes "node id '" ++ (id ++ codes "' is invalid (lowercase letters, digits, hyphens)")
message (empty_goal id) = codes "node '" ++ (id ++ codes "' has an empty goal")
message (unknown_dep id d) =
    codes "node '" ++ (id ++ (codes "' depends on unknown node '" ++ (d ++ codes "'")))
message (self_dep id) = codes "node '" ++ (id ++ codes "' depends on itself")
message (dep_twice id d) =
    codes "node '" ++ (id ++ (codes "' lists dep '" ++ (d ++ codes "' twice")))
message has_cycle = codes "dependency cycle detected"

-- `Result<Vec<GraphNode>, String>`, a panic, or a cycle check that ran out of rounds.
pub data Parsed (F : Type 0) : Type 0 where
  accepted : List (GraphNode F) → Parsed F
  refused : ProposalError → Parsed F
  crashed unfinished : Parsed F

-- A lower case letter, a digit, a hyphen or an underscore.
abbrev pub is_id_byte : ℕ → Bool
is_id_byte b = (leb 97 b && leb b 122) || ((leb 48 b && leb b 57) || (b == 45 || b == 95))

abbrev pub all_bytes : (ℕ → Bool) → Text → Bool
all_bytes p [] = true
all_bytes p (b ∷ bs) = p b && all_bytes p bs

unfoldable pub valid_node_id : Text → Bool
valid_node_id id = ltb 0 (length id) && (leb (length id) 64 && all_bytes is_id_byte id)

-- The inner loop over the dependencies; `seen` is `seen_deps`.
unfoldable pub check_deps : List Text → Text → List Text → List Text → Option ProposalError
check_deps known id [] seen = none
check_deps known id (d ∷ deps) seen =
    let rest = check_deps known id deps (d ∷ seen) in
    if not (listed known d)
    then some (unknown_dep id d)
    else if text_eq d id
    then some (self_dep id)
    else if listed seen d
    then some (dep_twice id d)
    else rest

module _ {F : Type 0} where
  -- The checks on one node.
  unfoldable pub check_node : List Text → ProposalNode F → Option ProposalError
  check_node known n =
      if not (valid_node_id n.id)
      then some (invalid_id n.id)
      else if is_blank n.goal
      then some (empty_goal n.id)
      else check_deps known n.id n.deps []

  unfoldable pub check_nodes : List Text → List (ProposalNode F) → Option ProposalError
  check_nodes known [] = none
  check_nodes known (n ∷ ns) = elim (check_node known n) [
    | none ↦ check_nodes known ns
    | some e ↦ some e
  ]

  -- The node of the graph.
  unfoldable pub plan_node : ProposalNode F → GraphNode F
  unfolding default_node
  plan_node n = record default_node {
    title = if length n.title == 0 then n.id else n.title;
    id = n.id;
    goal = n.goal;
    deps = n.deps;
    runner = n.runner;
    pos = n.pos;
  }

  -- What the cycle check decides.
  abbrev pub conclude : List (ProposalNode F) → Outcome → Parsed F
  conclude nodes (finished seen) =
      if seen == length nodes then accepted (map plan_node nodes) else refused has_cycle
  conclude nodes panicked = crashed
  conclude nodes out_of_fuel = unfinished

  -- The checks of the nodes; `order` is the order in which the map of indegrees is iterated over.
  unfoldable pub validate : (List Text → List Text) → List (ProposalNode F) → Parsed F
  unfolding check_nodes count_seen plan_node
  validate order nodes =
      if length nodes == 0
      then refused no_nodes
      else if ltb 50 (length nodes)
      then refused too_many_nodes
      else if not (length (to_set (ids nodes)) == length nodes)
      then refused duplicate_ids
      else elim (check_nodes (to_set (ids nodes)) nodes) [
        | some e ↦ refused e
        | none ↦ conclude nodes (count_seen order nodes)
      ]

  unfoldable pub parse_proposal : (List Text → List Text) → Contents F → Parsed F
  unfolding validate
  parse_proposal order (unreadable e) = refused (cannot_read e)
  parse_proposal order (malformed e) = refused (invalid_file e)
  parse_proposal order (proposal nodes) = validate order nodes
