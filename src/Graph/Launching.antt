-- ===== src/Graph/Launching.antt =====
-- The launches of one tick, step by step (jmux/src/goal/graph.rs).
use jmux.Base.{
  ℕ, zero, suc, ◌≡◌, refl, inl, inr, ◌⊎◌, Option, none, List, [], ◌∷◌, Bool-cases, Option-cases,
  Uuid,
}
use jmux.Base.Text.{Text}
use jmux.Graph.{GraphNode, GraphSpec, node, update_node}
use jmux.Graph.Schedule.{World, Launch, not_launched, launched}
use jmux.Graph.Ticks.{
  Launched, failed, started, worktree_path, mark, block, mark_launched, launch_node, launch_ready,
}

module _ {F : Type 0} where
  -- The nodes before and after launching some of the ready ones.
  pub data Launching : ℕ → List Text → List (GraphNode F) → List (GraphNode F) → Type 0 where
    nothing_left : (slots : ℕ) (nodes : List (GraphNode F)) → Launching slots [] nodes nodes
    no_slot : (ready : List Text) (nodes : List (GraphNode F)) → Launching 0 ready nodes nodes
    start :
        (slots : ℕ) (id : Text) (ready : List Text) (nodes after : List (GraphNode F))
        (branch worktree : Option Text) (ws : Option Uuid)
        → Launching slots ready (update_node nodes id (mark branch worktree ws)) after
        → Launching (suc slots) (id ∷ ready) nodes after
    fail :
        (slots : ℕ) (id : Text) (ready : List Text) (nodes after : List (GraphNode F)) (e : Text)
        → Launching (suc slots) ready (update_node nodes id (block e)) after
        → Launching (suc slots) (id ∷ ready) nodes after

  -- What a launch comes to.
  abbrev Outcomes : Text → List (GraphNode F) → Launched F → Type 0
  Outcomes id nodes l =
      ((e : Text) × (l ≡ failed e))
      ⊎ ((branch : Option Text) × (worktree : Option Text) × (ws : Option Uuid) × (l
            ≡ started (update_node nodes id (mark branch worktree ws))))

  mark_launched-Outcomes :
      (id : Text) (branch worktree : Option Text) (nodes : List (GraphNode F)) (l : Launch)
      → Outcomes id nodes (mark_launched id branch worktree nodes l)
  mark_launched-Outcomes id branch worktree nodes (not_launched e) = inl (e, refl)
  mark_launched-Outcomes id branch worktree nodes (launched ws) = inr (branch, worktree, ws, refl)

  launch_node-Outcomes :
      (w : World F) (spec : GraphSpec F) (id : Text) (nodes : List (GraphNode F))
      → Outcomes id nodes (launch_node w spec id nodes)
  unfolding launch_node
  launch_node-Outcomes w spec id nodes = elim (Option-cases (node nodes id)) [
    | inl absent ↦ rw (absent, launch_node) (inl (_, refl))
    | inr (n, found) ↦
        rw (found, launch_node)
          (elim (Bool-cases spec.use_worktrees) [
            | inr base ↦ rw (base) (mark_launched-Outcomes id none none nodes (w.launch_goal n))
            | inl own ↦
                rw (own) (elim (Option-cases (w.add_worktree (worktree_path spec.base_cwd id))) [
                  | inr (e, bad) ↦ rw (bad) (inl (e, refl))
                  | inl good ↦ rw (good) (mark_launched-Outcomes id _ _ nodes (w.launch_goal n))
                ])
          ])
  ]

  pub launch_ready-Launching :
      (w : World F) (spec : GraphSpec F) (slots : ℕ) (ready : List Text)
      (nodes : List (GraphNode F))
      → Launching slots ready nodes (launch_ready w spec slots ready nodes)
  unfolding launch_ready
  launch_ready-Launching w spec slots [] nodes = nothing_left slots nodes
  launch_ready-Launching w spec zero (id ∷ ready) nodes = no_slot (id ∷ ready) nodes
  launch_ready-Launching w spec (suc slots) (id ∷ ready) nodes =
      elim (launch_node-Outcomes w spec id nodes) [
        | inl (e, bad) ↦
            rw (bad, launch_ready)
              (fail slots id ready nodes _ e
                (launch_ready-Launching w spec (suc slots) ready (update_node nodes id (block e))))
        | inr (branch, worktree, ws, good) ↦
            rw (good, launch_ready)
              (start slots id ready nodes _ branch worktree ws (
                launch_ready-Launching w spec slots ready
                  (update_node nodes id (mark branch worktree ws))))
      ]
