-- ===== src/Graph/Oblige.antt =====
-- Ticks in a world where all goes well: runs end, launches and merges succeed
-- (jmux/src/goal/graph.rs).
use jmux.Base.{
  ◌≡◌, ◌⊎◌, refl, inl, inr, arith, ap, ◌∙◌, sym, true, false, Option, none, some, List, [], ◌∷◌,
  map, retain, Bool-cases, Option-cases, Uuid,
}
use jmux.Base.Names.{listed}
use jmux.Graph.Home.{Home, can_merge}
use jmux.Base.Text.{Text, text_eq}
use jmux.Graph.{GraphNode, node}
use jmux.Graph.Relax.{at_some}
use jmux.Graph.Grows.{done_at}
use jmux.Graph.Lookup.{Once, node_ids, node-map, node-update_node, listed-retain}
use jmux.Graph.Moves.{
  sync_node-Carries, finish-id, finish-done, done_only, sync_node-other, waits_not_running,
}
use jmux.Goal.{GoalRun, finished_goal}
use jmux.Graph.Schedule.{
  World, launched, run_of, is_pending, is_running, is_done, merge_branch, last_iteration, merged,
  finish, finish_node, finish_all, sync_node, sync_node_states, to_finish,
}

module _ {F : Type 0} where
  -- A world where all goes well.
  pub record Obliges (w : World F) : Type 0 where
    pub runs :
        (ws : Uuid) → (run : GoalRun) × (w.goals ws ≡ some run) × (run.status ≡ finished_goal)
    pub worktrees : (path : Text) → w.add_worktree path ≡ none
    pub launches : (n : GraphNode F) → (ws : Uuid) × (w.launch_goal n ≡ launched (some ws))
    pub clean : (id own_dir : Text) → can_merge (w.base_status id) own_dir ≡ true
    pub merges : (branch : Text) → w.merge branch ≡ none

  -- A node that waits, is done, or runs in a workspace.
  abbrev pub GoesWell : GraphNode F → Type 0
  GoesWell n =
      (is_pending n.status ≡ true)
      ⊎ ((is_done n.status ≡ true)
          ⊎ ((is_running n.status ≡ true) × (ws : Uuid) × (n.workspace ≡ some ws)))

  -- A node that waits or is done.
  abbrev pub Rests : GraphNode F → Type 0
  Rests n = (is_pending n.status ≡ true) ⊎ (is_done n.status ≡ true)

  module _ (w : World F) (o : Obliges w) where
    merge_branch-done :
        (home : Home) (n : GraphNode F) (worktree branch : Option Text)
        → is_done (merge_branch w home n worktree branch).status ≡ true
    unfolding merge_branch
    merge_branch-done home n none branch = refl
    merge_branch-done home n (some worktree) none = refl
    merge_branch-done home n (some worktree) (some branch) =
        rw (o.clean n.id home.own_dir, o.merges branch) refl

    finish-Obliges : (home : Home) (n : GraphNode F) → is_done (finish w home n).status ≡ true
    unfolding finish merged
    finish-Obliges home n = elim (Bool-cases (is_done n.status)) [
      | inl already ↦ rw (already) already
      | inr not_yet ↦ rw (not_yet) (
          merge_branch-done home (record n { iteration = last_iteration n (run_of w.goals n) })
            n.worktree n.branch)
    ]

    finish_node-stays :
        (home : Home) (nodes : List (GraphNode F)) (id x : Text)
        → done_at nodes x ≡ true
        → done_at (finish_node w home id nodes) x ≡ true
    unfolding finish_node
    finish_node-stays home nodes id x h = elim (Option-cases (node nodes x)) [
      | inl absent ↦ absurd (ground arith)
      | inr (n, found) ↦ ground (
        arith,
        node-update_node (finish w home) nodes id x (finish-id w home),
        finish-done w home n,
      )
    ]

    finish_all-stays :
        (home : Home) (to : List Text) (nodes : List (GraphNode F)) (x : Text)
        → done_at nodes x ≡ true
        → done_at (finish_all w home to nodes) x ≡ true
    unfolding finish_all
    finish_all-stays home [] nodes x h = h
    finish_all-stays home (id ∷ to) nodes x h =
        finish_all-stays home to (finish_node w home id nodes) x
          (finish_node-stays home nodes id x h)

    finish_all-done :
        (home : Home) (to : List Text) (nodes : List (GraphNode F)) (x : Text) (n : GraphNode F)
        → node nodes x ≡ some n
        → listed to x ≡ true
        → done_at (finish_all w home to nodes) x ≡ true
    unfolding finish_all finish_node
    finish_all-done home [] nodes x n found h = cc
    finish_all-done home (id ∷ to) nodes x n found h = elim (Bool-cases (text_eq id x)) [
      | inl same ↦ finish_all-stays home to (finish_node w home id nodes) x (
          ground (
            arith,
            node-update_node (finish w home) nodes id x (finish-id w home),
            finish-Obliges home n,
          ))
      | inr other ↦
          finish_all-done home to (finish_node w home id nodes) x n
            (ground (arith, node-update_node (finish w home) nodes id x (finish-id w home)))
            (ground arith)
    ]

    finish_all-other :
        (home : Home) (to : List Text) (nodes : List (GraphNode F)) (x : Text)
        → listed to x ≡ false
        → node (finish_all w home to nodes) x ≡ node nodes x
    unfolding finish_all finish_node
    finish_all-other home [] nodes x h = refl
    finish_all-other home (id ∷ to) nodes x h = elim (Bool-cases (text_eq id x)) [
      | inl same ↦ absurd (ground arith)
      | inr other ↦
          finish_all-other home to (finish_node w home id nodes) x (ground arith)
          ∙ ground (arith, node-update_node (finish w home) nodes id x (finish-id w home))
    ]

    chosen :
        (n : GraphNode F) (ws : Uuid)
        → is_running n.status ≡ true
        → n.workspace ≡ some ws
        → to_finish w false n ≡ true
    chosen n ws here at = let (run, found, ended) = o.runs ws in rw (here, at, found, ended) refl

    rests_other :
        (home : Home) (nodes : List (GraphNode F)) (x : Text) (n n' : GraphNode F)
        → Once nodes
        → node nodes x ≡ some n
        → is_running n.status ≡ false
        → node (sync_node_states w home false nodes) x ≡ some n'
        → n' ≡ n
    unfolding sync_node_states
    rests_other home nodes x n n' once found other found' =
        let to = node_ids (retain (to_finish w false) nodes) in
        let unlisted : listed to x ≡ false =
          listed-retain (to_finish w false) nodes x once ∙ rw (found, other) refl in
        let unchanged : node (sync_node_states w home false nodes) x ≡ some n =
          finish_all-other home to (map (sync_node w false) nodes) x unlisted
          ∙ (node-map (sync_node w false) nodes x (λ n. (sync_node-Carries w false n).ids)
              ∙ rw (found) (ap some (sync_node-other w false n other))) in
        cc (found', unchanged)

    -- After the nodes have followed their runs, none is running.
    pub sync_node_states-Rests :
        (home : Home) (nodes : List (GraphNode F)) (x : Text) (n n' : GraphNode F)
        → Once nodes
        → node nodes x ≡ some n
        → GoesWell n
        → node (sync_node_states w home false nodes) x ≡ some n'
        → Rests n'
    unfolding sync_node_states
    sync_node_states-Rests home nodes x n n' once found (inl waits) found' =
        let same =
          rests_other home nodes x n n' once found (waits_not_running n.status waits) found' in
        inl (rw (same) waits)
    sync_node_states-Rests home nodes x n n' once found (inr (inl finished)) found' =
        let same =
          rests_other home nodes x n n' once found (cc (done_only n.status finished)) found' in
        inr (rw (same) finished)
    sync_node_states-Rests home nodes x n n' once found (inr (inr (here, ws, at))) found' = inr (
        sym (ap (λ o. at_some o false (λ n. is_done n.status)) found')
        ∙ finish_all-done home (node_ids (retain (to_finish w false) nodes))
            (map (sync_node w false) nodes) x (sync_node w false n)
            (node-map (sync_node w false) nodes x (λ n. (sync_node-Carries w false n).ids)
              ∙ rw (found) refl)
            (listed-retain (to_finish w false) nodes x once ∙ rw (found) (chosen n ws here at)))
