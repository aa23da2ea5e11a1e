-- ===== src/Graph/Relax.antt =====
-- One round of the cycle check: what happens to the dependents of a popped node
-- (jmux/src/goal/graph.rs).
use jmux.Base.{
  ℕ, suc, ◌+◌, ◌-◌, ◌==◌, ◌≡◌, ◌≤◌, ◌<◌, refl, inl, inr, arith, ◌∙◌, ap, true, false, ◌&&◌, Option,
  none, some, List, [], ◌∷◌, ◌++◌, if◌then◌else◌, find, one_if, Bool-cases, Option-cases,
}
use jmux.Base.Names.{times, listed, times-append}
use jmux.Base.Text.{Text, text_eq, text_eq_refl, text_eq→eq}
use jmux.Graph.{ProposalNode}
use jmux.Graph.Kahn.{Indegrees, write, ids, relax}

-- What a function makes of an optional value, or `b`.
abbrev pub at_some {ℓ κ} : {A : Type ℓ} {B : Type κ} → Option A → B → (A → B) → B
at_some none b f = b
at_some (some a) b f = f a

pred_of : (n : ℕ) → 0 < n → (e : ℕ) × (n ≡ suc e)
pred_of n h = (n - 1, omega arith)

module _ {F : Type 0} where
  -- The node with an identifier.
  abbrev pub node_of : List (ProposalNode F) → Text → Option (ProposalNode F)
  node_of nodes x = find (λ n. text_eq n.id x) nodes

  pub node_of-times :
      (ns : List (ProposalNode F)) (x : Text) (n : ProposalNode F)
      → node_of ns x ≡ some n
      → 0 < times x (ids ns)
  node_of-times [] x n h = cc
  node_of-times (k ∷ ns) x n h = ground (arith, node_of-times ns x n)

  pub times-node_of :
      (ns : List (ProposalNode F)) (x : Text) → node_of ns x ≡ none → times x (ids ns) ≡ 0
  times-node_of [] x h = refl
  times-node_of (k ∷ ns) x h = ground (arith, times-node_of ns x)

  node_of-id :
      (ns : List (ProposalNode F)) (x : Text) (n : ProposalNode F)
      → node_of ns x ≡ some n
      → n.id ≡ x
  node_of-id [] x n h = cc
  node_of-id (k ∷ ns) x n h = elim (Bool-cases (text_eq k.id x)) [
    | inl here ↦ ground (arith, text_eq→eq k.id x here)
    | inr later ↦ node_of-id ns x n (ground arith)
  ]

  -- Where no identifier stands twice, a node of the tail is not shadowed by the head.
  pub head_other :
      (k : ProposalNode F) (ns : List (ProposalNode F)) (x : Text) (n : ProposalNode F)
      → times x (ids (k ∷ ns)) ≤ 1
      → node_of ns x ≡ some n
      → text_eq k.id x ≡ false
  head_other k ns x n once h = ground (arith, node_of-times ns x n h)

  -- Where no identifier stands twice, the head has its identifier for itself.
  pub head_only :
      (k : ProposalNode F) (ns : List (ProposalNode F)) (x : Text)
      → times x (ids (k ∷ ns)) ≤ 1
      → text_eq k.id x ≡ true
      → node_of ns x ≡ none
  head_only k ns x once same = elim (Option-cases (node_of ns x)) [
    | inl absent ↦ absent
    | inr (n, h) ↦ absurd (ground (arith, node_of-times ns x n h))
  ]

  module _ (need : ProposalNode F → ℕ) (id : Text) where
    abbrev pub lost : ProposalNode F → ℕ
    lost n = one_if (listed n.deps id)

    abbrev pub pushed : ProposalNode F → ℕ
    pushed n = one_if (listed n.deps id && (need n == 1))

    -- The result of a round: what each indegree is, and what was pushed.
    pub record Relaxed (ns : List (ProposalNode F)) (m : Indegrees) (queue : List Text)
        (m' : Indegrees) (queue' : List Text) : Type 0 where
      pub degrees : (x : Text) → m' x ≡ at_some (node_of ns x) (m x) (λ n. some (need n - lost n))
      pub queued : (x : Text) → times x queue' ≡ times x queue + at_some (node_of ns x) 0 pushed

    relax-lost :
        (k : ProposalNode F) (ns : List (ProposalNode F)) (m : Indegrees) (queue : List Text)
        (e : ℕ)
        → listed k.deps id ≡ true
        → m k.id ≡ some (suc e)
        → relax id (k ∷ ns) m queue
          ≡ relax id ns (write m k.id e) (if e == 0 then queue ++ k.id ∷ [] else queue)
    unfolding relax
    relax-lost k ns m queue e dependent at_k = rw (dependent, relax, at_k, relax) refl

    relax-spared :
        (k : ProposalNode F) (ns : List (ProposalNode F)) (m : Indegrees) (queue : List Text)
        → listed k.deps id ≡ false
        → relax id (k ∷ ns) m queue ≡ relax id ns m queue
    unfolding relax
    relax-spared k ns m queue spared = rw (spared, relax) refl

    Relaxed-lost :
        (k : ProposalNode F) (ns : List (ProposalNode F)) (m : Indegrees) (queue : List Text)
        (e : ℕ) (m' : Indegrees) (queue' : List Text)
        → ((x : Text) → times x (ids (k ∷ ns)) ≤ 1)
        → need k ≡ suc e
        → listed k.deps id ≡ true
        → Relaxed ns (write m k.id e) (if e == 0 then queue ++ k.id ∷ [] else queue) m' queue'
        → Relaxed (k ∷ ns) m queue m' queue'
    Relaxed-lost k ns m queue e m' queue' once one_more dependent r = record {
      degrees = λ x. elim (Bool-cases (text_eq k.id x)) [
        | inl same ↦ ground (arith, r.degrees x, head_only k ns x (once x) same)
        | inr other ↦ ground (arith, r.degrees x)
      ];
      queued = λ x. elim (Bool-cases (text_eq k.id x)) [
        | inl same ↦
            ground
              (arith, r.queued x, head_only k ns x (once x) same, times-append x queue (k.id ∷ []))
        | inr other ↦ ground (arith, r.queued x, times-append x queue (k.id ∷ []))
      ];
    }

    Relaxed-spared :
        (k : ProposalNode F) (ns : List (ProposalNode F)) (m : Indegrees) (queue : List Text)
        (m' : Indegrees) (queue' : List Text)
        → ((x : Text) → times x (ids (k ∷ ns)) ≤ 1)
        → m k.id ≡ some (need k)
        → listed k.deps id ≡ false
        → Relaxed ns m queue m' queue'
        → Relaxed (k ∷ ns) m queue m' queue'
    Relaxed-spared k ns m queue m' queue' once at_k spared r = record {
      degrees = λ x. elim (Bool-cases (text_eq k.id x)) [
        | inl same ↦
            ground
              (arith, r.degrees x, head_only k ns x (once x) same, ap m (text_eq→eq k.id x same))
        | inr other ↦ rw (other) (r.degrees x)
      ];
      queued = λ x. elim (Bool-cases (text_eq k.id x)) [
        | inl same ↦ ground (arith, r.queued x, head_only k ns x (once x) same)
        | inr other ↦ rw (other) (r.queued x)
      ];
    }

    -- The round goes through all nodes, and does not panic.
    pub relax-Relaxed :
        (ns : List (ProposalNode F)) (m : Indegrees) (queue : List Text)
        → ((x : Text) → times x (ids ns) ≤ 1)
        → ((x : Text) (n : ProposalNode F) → node_of ns x ≡ some n → m x ≡ some (need n))
        → ((x : Text) (n : ProposalNode F)
            → node_of ns x ≡ some n
            → listed n.deps id ≡ true
            → 0 < need n)
        → (m' : Indegrees) × (queue' : List Text) × (relax id ns m queue ≡ some (m', queue'))
          × Relaxed ns m queue m' queue'
    unfolding relax
    relax-Relaxed [] m queue once deg pos =
        (m, queue, refl, record { degrees = λ x. refl; queued = λ x. omega arith })
    relax-Relaxed (k ∷ ns) m queue once deg pos = elim (Bool-cases (listed k.deps id)) [
      | inr spared ↦
          let (m', queue', eq, r) =
            relax-Relaxed ns m queue (λ x. omega (arith, once x)) (λ x n h. deg x n (later x n h))
              (λ x n h. pos x n (later x n h)) in
          (
            m',
            queue',
            relax-spared k ns m queue spared ∙ eq,
            Relaxed-spared k ns m queue m' queue' once (deg k.id k at_head) spared r,
          )
      | inl dependent ↦
          let (e, one_more) = pred_of (need k) (pos k.id k at_head dependent) in
          let (m', queue', eq, r) =
            relax-Relaxed ns (write m k.id e) (if e == 0 then queue ++ k.id ∷ [] else queue)
              (λ x. omega (arith, once x))
              (λ x n h. rw (head_other k ns x n (once x) h) (deg x n (later x n h)))
              (λ x n h. pos x n (later x n h)) in
          (
            m',
            queue',
            relax-lost k ns m queue e dependent (deg k.id k at_head ∙ ap some one_more) ∙ eq,
            Relaxed-lost k ns m queue e m' queue' once one_more dependent r,
          )
    ]
      where
        at_head : node_of (k ∷ ns) k.id ≡ some k
        at_head = rw (text_eq_refl k.id) refl

        later :
            (x : Text) (n : ProposalNode F) → node_of ns x ≡ some n → node_of (k ∷ ns) x ≡ some n
        later x n h = ground (arith, head_other k ns x n (once x) h)
