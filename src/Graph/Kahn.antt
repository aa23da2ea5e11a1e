-- ===== src/Graph/Kahn.antt =====
-- The cycle check of `parse_proposal` (jmux/src/goal/graph.rs). The map of indegrees is a function;
-- a key that it does not have is `none`. `order` is the order in which the map is iterated over.
use jmux.Base.{
  ℕ, zero, suc, ◌+◌, ◌==◌, Bool, true, false, Option, none, some, List, [], ◌∷◌, ◌++◌, map,
  if◌then◌else◌, length, pop, retain,
}
use jmux.Base.Names.{listed}
use jmux.Base.Text.{Text, text_eq}
use jmux.Graph.{ProposalNode}

abbrev pub Indegrees : Type 0
Indegrees = Text → Option ℕ

abbrev pub write : Indegrees → Text → ℕ → Indegrees
write m id v x = if text_eq id x then some v else m x

module _ {F : Type 0} where
  abbrev pub ids : List (ProposalNode F) → List Text
  ids nodes = map (λ n. n.id) nodes

  -- The first loop: `entry(id).or_insert(0)`. The inner loop adds 0 for each dependency.
  unfoldable pub enter_all : List (ProposalNode F) → Indegrees → Indegrees
  enter_all [] m = m
  enter_all (n ∷ ns) m = elim (m n.id) [
    | none ↦ enter_all ns (write m n.id 0)
    | some _ ↦ enter_all ns m
  ]

  -- The second loop: `*get_mut(id).expect("id present") += deps.len()`. `none` is the panic.
  unfoldable pub add_deps : List (ProposalNode F) → Indegrees → Option Indegrees
  add_deps [] m = some m
  add_deps (n ∷ ns) m = elim (m n.id) [
    | none ↦ none
    | some d ↦ add_deps ns (write m n.id (d + length n.deps))
  ]

  -- The loop over all nodes after `id` was popped: the dependents lose one, and those at 0 are
  -- pushed. `none` is the panic of a missing key, or of a subtraction from 0.
  unfoldable pub relax :
      Text → List (ProposalNode F) → Indegrees → List Text → Option (Indegrees × List Text)
  relax id [] m queue = some (m, queue)
  relax id (n ∷ ns) m queue = elim (listed n.deps id) [
    | false ↦ relax id ns m queue
    | true ↦ elim (m n.id) [
      | none ↦ none
      | some zero ↦ none
      | some (suc e) ↦ relax id ns (write m n.id e) (if e == 0 then queue ++ n.id ∷ [] else queue)
    ]
  ]

-- What became of the check: the number of nodes seen, a panic, or no more rounds to run.
pub data Outcome : Type 0 where
  finished : ℕ → Outcome
  panicked out_of_fuel : Outcome

abbrev pub is_zero : Option ℕ → Bool
is_zero none = false
is_zero (some d) = d == 0

module _ {F : Type 0} where
  -- `while let Some(id) = queue.pop()`
  unfoldable pub drain : ℕ → List (ProposalNode F) → Indegrees → List Text → ℕ → Outcome
  unfolding relax
  drain zero nodes m queue seen = out_of_fuel
  drain (suc fuel) nodes m queue seen = elim (pop queue) [
    | none ↦ finished seen
    | some (id, rest) ↦ elim (relax id nodes m rest) [
      | none ↦ panicked
      | some (m', queue') ↦ drain fuel nodes m' queue' (suc seen)
    ]
  ]

  -- The number of nodes that the check sees. Each node is popped at most once, so one more round
  -- than there are nodes is enough.
  unfoldable pub count_seen : (List Text → List Text) → List (ProposalNode F) → Outcome
  unfolding enter_all add_deps drain
  count_seen order nodes = elim (add_deps nodes (enter_all nodes (λ _. none))) [
    | none ↦ panicked
    | some m ↦
        drain (suc (length nodes)) nodes m (retain (λ id. is_zero (m id)) (order (ids nodes))) 0
  ]
