-- ===== src/Graph/Progress.antt =====
-- Where the plan has no cycle, a tick in a world where all goes well starts a node
-- (jmux/src/goal/graph.rs).
use mathlib.Core.Path.{subst}
use jmux.Base.{
  ℕ, zero, suc, ◌≡◌, ◌≤◌, ◌<◌, refl, inl, inr, arith, ap, ◌∙◌, sym, Bool, true, false, Option, none,
  some, List, [], ◌∷◌, all, Bool-cases, Option-cases, Uuid,
}
use jmux.Base.Names.{listed}
use jmux.Base.Text.{Text, text_eq, text_eq_refl}
use jmux.Graph.{GraphNode, GraphSpec, node, update_node}
use jmux.Graph.Relax.{at_some}
use jmux.Graph.Grows.{waits_at}
use jmux.Graph.Lookup.{Once, node-update_node, listed-retain}
use jmux.Graph.Oblige.{Obliges, GoesWell, Rests}
use jmux.Graph.Schedule.{World, is_pending, is_done}
use jmux.Graph.Ticks.{
  mark, started, worktree_path, branch_name, launch_node, launch_ready, is_ready, done_ids, active,
}
use jmux.Graph.Waiting.{waiting, waiting-update_node, waiting-started, active-more, active-found}

some_missing :
    (p : Text → Bool) (deps : List Text)
    → all p deps ≡ false
    → (d : Text) × (listed deps d ≡ true) × (p d ≡ false)
some_missing p [] h = cc
some_missing p (d ∷ deps) h = elim (Bool-cases (p d)) [
  | inr bad ↦ (d, rw (text_eq_refl d) refl, bad)
  | inl good ↦
      let (e, e_in, bad) = some_missing p deps (ground arith) in (e, ground (arith, e_in), bad)
]

module _ {F : Type 0} where
  -- The dependencies of the nodes are nodes, and come earlier.
  pub record IsOrdered (nodes : List (GraphNode F)) : Type 0 where
    pub rank : Text → ℕ
    pub below :
        (x : Text) (n : GraphNode F)
        → node nodes x ≡ some n
        → (d : Text) → listed n.deps d ≡ true
        → rank d < rank x
    pub known :
        (x : Text) (n : GraphNode F)
        → node nodes x ≡ some n
        → (d : Text) → listed n.deps d ≡ true
        → (m : GraphNode F) × (node nodes d ≡ some m)

  abbrev pub Each : (GraphNode F → Type 0) → List (GraphNode F) → Type 0
  Each P nodes = (x : Text) (n : GraphNode F) → node nodes x ≡ some n → P n

  -- Of the nodes that wait, one has all its dependencies done.
  pub ready_exists :
      (nodes : List (GraphNode F)) (o : IsOrdered nodes)
      → Once nodes
      → Each Rests nodes
      → (bound : ℕ) (x : Text) (n : GraphNode F) → o.rank x < bound
      → node nodes x ≡ some n
      → is_pending n.status ≡ true
      → (y : Text) × (m : GraphNode F) × (node nodes y ≡ some m)
        × (is_ready (done_ids nodes) m ≡ true)
  ready_exists nodes o once rests zero x n h found waits = absurd (omega arith)
  ready_exists nodes o once rests (suc bound) x n h found waits =
      elim (Bool-cases (all (listed (done_ids nodes)) n.deps)) [
        | inl met ↦ (x, n, found, ground arith)
        | inr unmet ↦
            let (d, dep, missing) = some_missing (listed (done_ids nodes)) n.deps unmet in
            let (m, m_found) = o.known x n found d dep in
            let not_done : is_done m.status ≡ false =
              sym (ap (λ t. at_some t false (λ n. is_done n.status)) m_found)
              ∙ (sym (listed-retain (λ n. is_done n.status) nodes d once) ∙ missing) in
            ready_exists nodes o once rests bound d m (omega (arith, o.below x n found d dep))
              m_found (ground (arith, rests d m m_found))
      ]

  module _ (w : World F) (o : Obliges w) (spec : GraphSpec F) where
    launch_node-Obliges :
        (id : Text) (nodes : List (GraphNode F)) (n : GraphNode F)
        → node nodes id ≡ some n
        → (branch : Option Text) × (worktree : Option Text) × (ws : Uuid) × (launch_node w spec id
              nodes
            ≡ started (update_node nodes id (mark branch worktree (some ws))))
    unfolding launch_node
    launch_node-Obliges id nodes n found =
        let (ws, ok) = o.launches n in
        elim (Bool-cases spec.use_worktrees) [
          | inr base ↦ (none, none, ws, rw (found, launch_node, base, ok) refl)
          | inl own ↦ (
            some (branch_name spec.name id),
            some (worktree_path spec.base_cwd id),
            ws,
            rw (found, launch_node, own, o.worktrees (worktree_path spec.base_cwd id), ok) refl,
          )
        ]

    -- What launching keeps, when it succeeds.
    pub record Goes (nodes after : List (GraphNode F)) : Type 0 where
      pub well : Each GoesWell nodes → Each GoesWell after
      busier : active nodes ≤ active after
      pub fewer : waiting after ≤ waiting nodes

    one_launch :
        (nodes : List (GraphNode F)) (id : Text) (branch worktree : Option Text) (ws : Uuid)
        → Goes nodes (update_node nodes id (mark branch worktree (some ws)))
    unfolding mark
    one_launch nodes id branch worktree ws = record {
      well = λ h x n found. elim (Option-cases (node nodes x)) [
        | inl absent ↦ absurd (
            ground
              (arith, node-update_node (mark branch worktree (some ws)) nodes id x (λ n. refl)))
        | inr (m, m_found) ↦ elim (Bool-cases (text_eq id x)) [
          | inl same ↦
              let is_marked : some n ≡ some (mark branch worktree (some ws) m) =
                sym found
                ∙ (node-update_node (mark branch worktree (some ws)) nodes id x (λ n. refl)
                    ∙ rw (same, m_found) refl) in
              subst (λ t. at_some t Unit GoesWell) (sym is_marked) (inr (inr (refl, ws, refl)))
          | inr other ↦ h x n (
              ground
                (arith, node-update_node (mark branch worktree (some ws)) nodes id x (λ n. refl)))
        ]
      ];
      busier = active-more (mark branch worktree (some ws)) nodes id (λ n. refl);
      fewer =
          waiting-update_node (mark branch worktree (some ws)) nodes id (λ n h. absurd (cc (h)));
    }

    Goes-refl : (nodes : List (GraphNode F)) → Goes nodes nodes
    Goes-refl nodes = record { well = λ h. h; busier = omega arith; fewer = omega arith }

    Goes-trans : (a b c : List (GraphNode F)) → Goes a b → Goes b c → Goes a c
    Goes-trans a b c ab bc = record {
      well = λ h. bc.well (ab.well h);
      busier = omega (arith, ab.busier, bc.busier);
      fewer = omega (arith, ab.fewer, bc.fewer);
    }

    pub waits_found :
        (nodes : List (GraphNode F)) (x : Text)
        → waits_at nodes x ≡ true
        → (n : GraphNode F) × (node nodes x ≡ some n)
    waits_found nodes x h = elim (Option-cases (node nodes x)) [
      | inl absent ↦ absurd (ground arith)
      | inr found ↦ found
    ]

    still_found :
        (nodes : List (GraphNode F)) (id : Text) (branch worktree : Option Text) (ws : Uuid)
        (x : Text)
        → (n : GraphNode F) × (node nodes x ≡ some n)
        → (n : GraphNode F) × (node (update_node nodes id (mark branch worktree (some ws))) x
            ≡ some n)
    unfolding mark
    still_found nodes id branch worktree ws x (n, found) =
        let f = mark branch worktree (some ws) in
        elim (Bool-cases (text_eq id x)) [
          | inl same ↦ (f n, ground (arith, node-update_node f nodes id x (λ n. refl)))
          | inr other ↦ (n, ground (arith, node-update_node f nodes id x (λ n. refl)))
        ]

    pub launch_ready-Obliges :
        (slots : ℕ) (ready : List Text) (nodes : List (GraphNode F))
        → ((x : Text) → listed ready x ≡ true → (n : GraphNode F) × (node nodes x ≡ some n))
        → Goes nodes (launch_ready w spec slots ready nodes)
    unfolding launch_ready
    launch_ready-Obliges slots [] nodes found = Goes-refl nodes
    launch_ready-Obliges zero (id ∷ ready) nodes found = Goes-refl nodes
    launch_ready-Obliges (suc slots) (id ∷ ready) nodes found =
        let (n, n_found) = found id (rw (text_eq_refl id) refl) in
        let (branch, worktree, ws, e) = launch_node-Obliges id nodes n n_found in
        rw (e, launch_ready)
          (Goes-trans nodes (update_node nodes id (mark branch worktree (some ws))) _
            (one_launch nodes id branch worktree ws)
            (launch_ready-Obliges slots ready
              (update_node nodes id (mark branch worktree (some ws)))
              (λ x x_in.
                still_found nodes id branch worktree ws x (found x (ground (arith, x_in))))))

    -- With a free slot, the first ready node is started.
    pub first_launch :
        (slots : ℕ) (ready : List Text) (nodes : List (GraphNode F)) (y : Text)
        → ((x : Text) → listed ready x ≡ true → waits_at nodes x ≡ true)
        → 0 < slots
        → listed ready y ≡ true
        → (0 < active (launch_ready w spec slots ready nodes))
          × (waiting (launch_ready w spec slots ready nodes) < waiting nodes)
    unfolding launch_ready mark
    first_launch zero ready nodes y waits h y_in = absurd (omega arith)
    first_launch slots [] nodes y waits h y_in = cc
    first_launch (suc slots) (id ∷ ready) nodes y waits h y_in =
        let id_waits : waits_at nodes id ≡ true = waits id (rw (text_eq_refl id) refl) in
        let (n, n_found) = waits_found nodes id id_waits in
        let (branch, worktree, ws, e) = launch_node-Obliges id nodes n n_found in
        let f = mark branch worktree (some ws) in
        let rest = launch_ready-Obliges slots ready (update_node nodes id f) (λ x x_in.
          still_found nodes id branch worktree ws x
            (waits_found nodes x (waits x (ground (arith, x_in))))) in
        rw (e, launch_ready)
          (
            omega (arith, rest.busier, active-found f nodes id (λ n. refl) id_waits),
            omega (arith, rest.fewer, waiting-started f nodes id (λ n. refl) id_waits),
          )
