-- ===== src/Graph/Reported.antt =====
-- From the report of an agent to the node of its graph: the driver's tick (jmux/src/goal/mod.rs), and
-- then the scheduler's look at the runs (`sync_node_states` of jmux/src/goal/graph.rs).
use jmux.Base.{◌≡◌, ◌∙◌, refl, true, false, some, Uuid, ℕ}
use jmux.Base.Map
use jmux.Base.Text.{codes, text_eq}
use jmux.Goal.{GoalRun, GoalSettings, is_terminal}
use jmux.Goal.Outcome.{IterationOutcome}
use jmux.Goal.Registry.{Driver, Outside, report_of}
use jmux.Goal.Drive.{tick}
use jmux.Goal.Paced.{ArePaced}
use jmux.Goal.Finished.{tick-finished}
use jmux.Graph.{GraphNode, running, review}
use jmux.Graph.Schedule.{World, sync_node, to_finish}

-- If a run that stands in a registry within the limits has not ended, its workspace is there and
-- its report says `done`, then a tick of the driver, over all runs, finishes it, and the graph's
-- next look at the running node of that workspace lets the node be finished or, where iterations
-- are reviewed, puts it into review with the iteration of the run.
pub tick-sync_node :
    {F : Type 0} (first : Uuid → ℕ) (settings : GoalSettings) (start : Outside) (o : Uuid → Outside)
    (d : Driver) (run : GoalRun) (outcome : IterationOutcome) (w : World F) (n : GraphNode F)
    → ArePaced first settings d
    → Map.get d.goals run.workspace_id ≡ some run
    → is_terminal run.status ≡ false
    → (o run.workspace_id).has_workspace run.workspace_id ≡ true
    → report_of (o run.workspace_id) run ≡ some (some outcome)
    → text_eq outcome.status (codes "done") ≡ true
    → ((ws_id : Uuid) → w.goals ws_id ≡ Map.get (tick start o settings d).goals ws_id)
    → n.status ≡ running
    → n.workspace ≡ some run.workspace_id
    → (to_finish w false n ≡ true)
      × (sync_node w true n ≡ record n { iteration = run.iteration; status = review })
unfolding sync_node
tick-sync_node first settings start o d run outcome w n p found live here report says goals busy
      ws =
    let seen =
      goals run.workspace_id
      ∙ tick-finished first settings start o d run outcome p found live here report says in
    (rw (busy, ws, seen) refl, rw (busy, ws, seen) refl)
