-- ===== src/Graph/Rounds.antt =====
-- The rounds of the cycle check: what holds of the popped nodes and of the queue, and that the
-- rounds end (jmux/src/goal/graph.rs).
use jmux.Base.{
  ℕ, zero, suc, ◌+◌, ◌==◌, ◌≡◌, ◌≤◌, refl, inl, inr, arith, ap, ◌∙◌, sym, Bool, false, Option, none,
  some, List, [], ◌∷◌, length, pop, one_if, Option-cases,
}
use jmux.Base.Names.{times, listed, listed-times, length-le-of_times}
use jmux.Base.Text.{Text, text_eq, text_eq_refl}
use jmux.Graph.{ProposalNode}
use jmux.Graph.Kahn.{Indegrees, finished, ids, relax, drain}
use jmux.Graph.Relax.{at_some, node_of, node_of-times, Relaxed, relax-Relaxed}
use jmux.Graph.Unmet.{unmet, unmet-lost}

-- What popping takes from a queue.
abbrev popped_times : Text → Option (Text × List Text) → ℕ
popped_times x none = 0
popped_times x (some (id, rest)) = one_if (text_eq id x) + times x rest

times-pop : (x : Text) (queue : List Text) → popped_times x (pop queue) ≡ times x queue
times-pop x [] = refl
times-pop x (q ∷ queue) = ground (arith, times-pop x queue, Option-cases (pop queue))

module _ {F : Type 0} (nodes : List (ProposalNode F)) where
  abbrev pub is_ready : List Text → Text → Bool
  is_ready popped x = at_some (node_of nodes x) false (λ n. unmet popped n.deps == 0)

  -- Each popped node has its dependencies among those popped before; the newest stands first.
  pub data Supported : List Text → Type 0 where
    start : Supported []
    next :
        (id : Text) (popped : List Text) (n : ProposalNode F)
        → node_of nodes id ≡ some n
        → unmet popped n.deps ≡ 0
        → Supported popped
        → Supported (id ∷ popped)

  -- The state between two rounds.
  pub record Round (popped : List Text) (m : Indegrees) (queue : List Text) : Type 0 where
    pub degrees :
        (x : Text) → m x ≡ at_some (node_of nodes x) none (λ n. some (unmet popped n.deps))
    pub places : (x : Text) → times x queue + times x popped ≡ one_if (is_ready popped x)
    pub supported : Supported popped

  -- The popped nodes when the queue is empty.
  pub record Settled (popped : List Text) : Type 0 where
    pub all_ready : (x : Text) → times x popped ≡ one_if (is_ready popped x)
    pub supported : Supported popped

  module _ (once : (x : Text) → times x (ids nodes) ≤ 1)
      (once_deps : (x : Text) (n : ProposalNode F)
        → node_of nodes x ≡ some n
        → (d : Text) → times d n.deps ≤ 1) where
    popped_bound :
        (popped : List Text) (m : Indegrees) (queue : List Text)
        → Round popped m queue
        → length popped ≤ length (ids nodes)
    popped_bound popped m queue r =
        length-le-of_times popped (ids nodes) (λ x. ground (arith, r.places x))
          (λ x h. elim (Option-cases (node_of nodes x)) [
            | inl absent ↦ ground (arith, r.places x)
            | inr (n, found) ↦ node_of-times nodes x n found
          ])

    module _ (popped : List Text) (m : Indegrees) (queue : List Text) (r : Round popped m queue)
        (id : Text) (rest : List Text) (taken : pop queue ≡ some (id, rest)) where
      took : (x : Text) → one_if (text_eq id x) + times x rest ≡ times x queue
      took x = sym (ap (popped_times x) taken) ∙ times-pop x queue

      fresh : listed popped id ≡ false
      fresh = ground (arith, took id, text_eq_refl id, r.places id, listed-times popped id)

      -- The popped node has all its dependencies.
      popped_node : (n : ProposalNode F) × (node_of nodes id ≡ some n) × (unmet popped n.deps ≡ 0)
      popped_node = elim (Option-cases (node_of nodes id)) [
        | inl absent ↦ absurd (ground (arith, took id, text_eq_refl id, r.places id))
        | inr (n, found) ↦ (n, found, ground (arith, took id, text_eq_refl id, r.places id))
      ]

      less :
          (x : Text) (n : ProposalNode F)
          → node_of nodes x ≡ some n
          → unmet popped n.deps ≡ unmet (id ∷ popped) n.deps + one_if (listed n.deps id)
      less x n found = unmet-lost id popped n.deps fresh (once_deps x n found id)

      -- The state after a round.
      after_relax :
          (m' : Indegrees) (queue' : List Text)
          → Relaxed (λ n. unmet popped n.deps) id nodes m rest m' queue'
          → Round (id ∷ popped) m' queue'
      after_relax m' queue' s = record {
        degrees = λ x. elim (Option-cases (node_of nodes x)) [
          | inl absent ↦ ground (arith, s.degrees x, r.degrees x)
          | inr (n, found) ↦ ground (arith, s.degrees x, less x n found)
        ];
        places = λ x. elim (Option-cases (node_of nodes x)) [
          | inl absent ↦ ground (arith, s.queued x, r.places x, took x)
          | inr (n, found) ↦ ground (arith, s.queued x, r.places x, took x, less x n found)
        ];
        supported = next id popped popped_node.0 popped_node.1 popped_node.2 r.supported;
      }

      -- A round does not panic.
      relax_once :
          (m' : Indegrees) × (queue' : List Text) × (relax id nodes m rest ≡ some (m', queue'))
          × Round (id ∷ popped) m' queue'
      relax_once =
          let (m', queue', e, s) =
            relax-Relaxed (λ n. unmet popped n.deps) id nodes m rest once
              (λ x n found. ground (arith, r.degrees x))
              (λ x n found dependent. ground (arith, less x n found)) in
          (m', queue', e, after_relax m' queue' s)

    pub drain-finished :
        (fuel : ℕ) (popped : List Text) (m : Indegrees) (queue : List Text)
        → Round popped m queue
        → fuel + length popped ≡ suc (length (ids nodes))
        → (all : List Text) × (drain fuel nodes m queue (length popped) ≡ finished (length all))
          × Settled all
    unfolding drain
    drain-finished zero popped m queue r enough =
        absurd (omega (arith, popped_bound popped m queue r))
    drain-finished (suc fuel) popped m queue r enough = elim (Option-cases (pop queue)) [
      | inl empty ↦ (
        popped,
        rw (empty, drain) refl,
        record {
          all_ready = λ x. ground (arith, r.places x, times-pop x queue, ap (popped_times x) empty);
          supported = r.supported;
        },
      )
      | inr ((id, rest), taken) ↦
          let (m', queue', e, r') = relax_once popped m queue r id rest taken in
          let (all, done, s) = drain-finished fuel (id ∷ popped) m' queue' r' (omega arith) in
          (all, rw (taken, e, drain) done, s)
    ]
