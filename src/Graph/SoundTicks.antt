-- ===== src/Graph/SoundTicks.antt =====
-- Ticks keep a graph sound (jmux/src/goal/graph.rs).
use jmux.Base.{ℕ, ltb, ◌==◌, ◌≡◌, refl, Option, none, some, length, ltb}
use jmux.Graph.{GraphState, proposing, proposed, complete, paused, stopped, GraphSpec}
use jmux.Graph.Cap.{active-tick_running}
use jmux.Graph.Order.{tick_running-Advances}
use jmux.Graph.Proposal.{Parsed, accepted, refused, crashed, unfinished, parse_proposal}
use jmux.Graph.Schedule.{World}
use jmux.Graph.Started.{parse_proposal-IsFresh}
use jmux.Graph.Ticks.{
  tick_running, tick_proposing, try_proposal, start_plan, start_by, try_by, wait_for, process_by,
  schedule,
}
use jmux.Graph.Sound.{Permutes, both_ways, SpecIsSound, IsSound-fresh}

module _ {F : Type 0} where
  start_plan-IsSound :
      (w : World F) (s : GraphSpec F)
      → Permutes w.order
      → SpecIsSound s
      → SpecIsSound (start_plan w s)
  start_plan-IsSound w s same h = by_parse (parse_proposal w.order w.proposal_again) refl
    where
      by_parse :
          (p : Parsed F) → parse_proposal w.order w.proposal_again ≡ p → SpecIsSound (start_by s p)
      by_parse (accepted nodes) e =
          IsSound-fresh s.max_concurrency nodes
            (parse_proposal-IsFresh w.order w.proposal_again nodes same e)
      by_parse (refused e') e = h
      by_parse crashed e = h
      by_parse unfinished e = h

  try_proposal-IsSound :
      (w : World F) (s : GraphSpec F)
      → Permutes w.order
      → SpecIsSound s
      → SpecIsSound (try_proposal w s)
  try_proposal-IsSound w s same h = by_parse (parse_proposal w.order w.proposal)
    where
      by_parse : (p : Parsed F) → SpecIsSound (try_by w s p)
      by_parse (accepted nodes) = both_ways SpecIsSound s.review h (start_plan-IsSound w s same h)
      by_parse (refused e') = h
      by_parse crashed = h
      by_parse unfinished = h

  tick_proposing-IsSound :
      (w : World F) (s : GraphSpec F)
      → Permutes w.order
      → SpecIsSound s
      → SpecIsSound (tick_proposing w s)
  unfolding tick_proposing
  tick_proposing-IsSound w s same h = by_mtime w.proposal_mtime s.min_proposal_mtime
    where
      by_mtime : (mtime min : Option ℕ) → SpecIsSound (wait_for w s mtime min)
      by_mtime none min = h
      by_mtime (some mtime) none = try_proposal-IsSound w s same h
      by_mtime (some mtime) (some min) =
          both_ways SpecIsSound (ltb mtime min) h (try_proposal-IsSound w s same h)

  limit-tick_running :
      (w : World F) (s : GraphSpec F) → (tick_running w s).max_concurrency ≡ s.max_concurrency
  unfolding tick_running schedule
  limit-tick_running w s =
      both_ways (λ (t : GraphSpec F). t.max_concurrency ≡ s.max_concurrency) (length s.nodes == 0)
        refl (both_ways (λ (t : GraphSpec F). t.max_concurrency ≡ s.max_concurrency) _ refl refl)

  tick_running-IsSound :
      (w : World F) (s : GraphSpec F) → SpecIsSound s → SpecIsSound (tick_running w s)
  tick_running-IsSound w s h =
      let a = tick_running-Advances w s h.once in
      rw (limit-tick_running w s) record {
        once = λ x. rw (a.same_ids) (h.once x);
        in_order = a.in_order h.in_order;
        capped = active-tick_running w s h.capped;
      }

  pub process_by-IsSound :
      (w : World F) (s : GraphSpec F) (state : GraphState)
      → Permutes w.order
      → SpecIsSound s
      → SpecIsSound (process_by w s state)
  process_by-IsSound w s proposing same h = tick_proposing-IsSound w s same h
  process_by-IsSound w s GraphState.running same h = tick_running-IsSound w s h
  process_by-IsSound w s proposed same h = h
  process_by-IsSound w s complete same h = h
  process_by-IsSound w s paused same h = h
  process_by-IsSound w s stopped same h = h
