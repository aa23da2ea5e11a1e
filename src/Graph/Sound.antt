-- ===== src/Graph/Sound.antt =====
-- What every reachable graph satisfies (jmux/src/goal/graph.rs).
use jmux.Base.{ℕ, ◌≡◌, ◌≤◌, arith, Bool, true, false, some, List, if◌then◌else◌, Uuid}
use jmux.Base.Names.{times}
use jmux.Base.Text.{Text}
use jmux.Graph.{GraphNode, GraphSpec}
use jmux.Graph.Commands.{run_link}
use jmux.Graph.Grows.{waits_at, InOrder}
use jmux.Graph.InOrder.{Advances}
use jmux.Graph.Lookup.{Once}
use jmux.Goal.{GraphLink}
use jmux.Graph.Schedule.{World}
use jmux.Graph.Started.{IsFresh}
use jmux.Graph.Ticks.{active}

-- Each key of a map is visited once.
abbrev pub Permutes : (List Text → List Text) → Type 0
Permutes order = (xs : List Text) (x : Text) → times x (order xs) ≡ times x xs

-- What holds of both branches holds of the conditional.
pub both_ways :
    {A : Type 0} (P : A → Type 0) (b : Bool) {x y : A} → P x → P y → P (if b then x else y)
both_ways P true p q = p
both_ways P false p q = q

module _ {F : Type 0} where
  -- A goal run that is accepted is of a node that was launched.
  abbrev pub WasLaunched : World F → Uuid → GraphSpec F → Type 0
  WasLaunched w ws spec =
      (link : GraphLink) → run_link (w.goals ws) ≡ some link → waits_at spec.nodes link.node ≡ false

  -- What holds of the nodes of a graph, with its limit.
  pub record IsSound (limit : ℕ) (nodes : List (GraphNode F)) : Type 0 where
    pub once : Once nodes
    pub in_order : InOrder nodes
    pub capped : active nodes ≤ limit

  abbrev pub SpecIsSound : GraphSpec F → Type 0
  SpecIsSound s = IsSound s.max_concurrency s.nodes

  pub IsSound-Advances :
      (limit : ℕ) (nodes nodes' : List (GraphNode F))
      → Advances nodes nodes'
      → active nodes' ≤ active nodes
      → IsSound limit nodes
      → IsSound limit nodes'
  IsSound-Advances limit nodes nodes' a calmer s = record {
    once = λ x. rw (a.same_ids) (s.once x);
    in_order = a.in_order s.in_order;
    capped = omega (arith, calmer, s.capped);
  }

  pub IsSound-fresh : (limit : ℕ) (nodes : List (GraphNode F)) → IsFresh nodes → IsSound limit nodes
  IsSound-fresh limit nodes f = record {
    once = f.once;
    in_order = f.in_order;
    capped = omega (arith, f.calm);
  }
