-- ===== src/Graph/Stuck.antt =====
-- A graph that was paused before it had a plan (jmux/src/goal/graph.rs) never gets one.
use mathlib.Core.Path.{subst}
use jmux.Base.{
  ◌≡◌, refl, sym, inl, inr, true, false, Option, none, some, [], length, ◌==◌, any, if◌then◌else◌,
  Bool-cases,
}
use jmux.Base.Text.{text_eq}
use jmux.Graph.{GraphState, paused, stopped, GraphSpec, node}
use jmux.Graph.Commands.{
  approve_graph, revise_graph, resume_graph, accept_node, accept_by, continue_node, continue_by,
  update_node_goal, update_node_position, reload, set_graph_state, run_link, is_under_review,
}
use jmux.Graph.Schedule.{World, finish_node, is_active}
use jmux.Graph.Space.{is_blank}
use jmux.Graph.Ticks.{process_graph, process_by}
use jmux.Graph.Steps.{
  Step, by_tick, by_approve, by_revise, by_pause, by_stop, by_resume, by_accept, by_continue,
  by_goal, by_drag, by_restart, Reaches, stays, goes,
}
use jmux.Goal.{GraphLink}

-- A state in which nothing is scheduled and no plan is looked at.
pub data IsIdle : GraphState → Type 0 where
  is_paused : IsIdle paused
  is_stopped : IsIdle stopped

idle_unreviewed : {state : GraphState} → IsIdle state → is_under_review state ≡ false
idle_unreviewed is_paused = refl
idle_unreviewed is_stopped = refl

module _ {F : Type 0} where
  pub record IsStuck (s : GraphSpec F) : Type 0 where
    pub no_nodes : s.nodes ≡ []
    pub idle : IsIdle s.status

  process_by-stuck :
      (w : World F) (s : GraphSpec F) (state : GraphState) → IsIdle state → process_by w s state ≡ s
  process_by-stuck w s _ is_paused = refl
  process_by-stuck w s _ is_stopped = refl

  accept_by-IsStuck :
      (w : World F) (s : GraphSpec F) (link : Option GraphLink)
      → IsStuck s
      → IsStuck (accept_by w s link)
  accept_by-IsStuck w s none h = h
  accept_by-IsStuck w s (some link) h = elim (Bool-cases (text_eq link.graph s.name)) [
    | inl same ↦
        rw (same, accept_by)
          (record { no_nodes = unfold finish_node in rw h.no_nodes refl; idle = h.idle })
    | inr other ↦ rw (other, accept_by) h
  ]

  continue_by-IsStuck :
      (s : GraphSpec F) (link : Option GraphLink) → IsStuck s → IsStuck (continue_by s link)
  continue_by-IsStuck s none h = h
  continue_by-IsStuck s (some link) h = elim (Bool-cases (text_eq link.graph s.name)) [
    | inl same ↦ rw (same, continue_by) (record { no_nodes = rw h.no_nodes refl; idle = h.idle })
    | inr other ↦ rw (other, continue_by) h
  ]

  reload-IsIdle : (s : GraphSpec F) → IsIdle s.status → IsIdle (reload s).status
  unfolding reload
  reload-IsIdle s h = kept s.status h
    where
      kept :
          (state : GraphState)
          → IsIdle state
          → IsIdle (elim (state) [
            | GraphState.running ↦
                if any (λ n. is_active n.status) s.nodes then paused else GraphState.running
            | other ↦ other
          ])
      kept _ is_paused = is_paused
      kept _ is_stopped = is_stopped

  Step-IsStuck : (s t : GraphSpec F) → Step s t → IsStuck s → IsStuck t
  unfolding process_graph approve_graph revise_graph resume_graph update_node_goal
      update_node_position set_graph_state accept_node continue_node reload
  Step-IsStuck s _ (by_tick w _ same) h = rw (process_by-stuck w s s.status h.idle) h
  Step-IsStuck s _ (by_approve order contents _ same) h = rw (idle_unreviewed h.idle) h
  Step-IsStuck s _ (by_revise has_panel agent_runs sent now _) h = rw (idle_unreviewed h.idle) h
  Step-IsStuck s _ (by_pause _) h = record { no_nodes = h.no_nodes; idle = is_paused }
  Step-IsStuck s _ (by_stop _) h = record { no_nodes = h.no_nodes; idle = is_stopped }
  Step-IsStuck s _ (by_resume w _) h =
      let empty : (length s.nodes == 0) ≡ true = rw h.no_nodes refl in rw empty h
  Step-IsStuck s _ (by_accept w ws _ launched) h = accept_by-IsStuck w s (run_link (w.goals ws)) h
  Step-IsStuck s _ (by_continue w ws _) h = continue_by-IsStuck s (run_link (w.goals ws)) h
  Step-IsStuck s _ (by_goal id goal_text _) h = elim (Bool-cases (is_blank goal_text)) [
    | inl blank ↦ rw (blank, update_node_goal) h
    | inr given ↦
        let unknown : node s.nodes id ≡ none = rw h.no_nodes refl in
        rw (given, unknown, update_node_goal) h
  ]
  Step-IsStuck s _ (by_drag id at _) h = record { no_nodes = rw h.no_nodes refl; idle = h.idle }
  Step-IsStuck s _ (by_restart _) h = record {
    no_nodes = rw h.no_nodes refl;
    idle = reload-IsIdle s h.idle;
  }

  -- A graph that was paused before it had nodes never gets any: whatever ticks, approvals,
  -- revisions, pauses, stops, resumptions, acceptances, continuations, edits and restarts follow,
  -- it has no nodes and is paused or stopped.
  pub reachable-IsStuck :
      (s t : GraphSpec F) → s.status ≡ paused → s.nodes ≡ [] → Reaches s t → IsStuck t
  reachable-IsStuck s _ held new stays = record {
    no_nodes = new;
    idle = subst IsIdle (sym held) is_paused;
  }
  reachable-IsStuck s u held new (goes t _ r step) =
      Step-IsStuck t u step (reachable-IsStuck s t held new r)
