-- ===== src/Graph/Deps.antt =====
-- What the checks of one node and of all nodes of a proposal say (jmux/src/goal/graph.rs).
use mathlib.Core.Path.{subst}
use jmux.Base.{
  ◌+◌, ◌≡◌, ◌≤◌, ◌<◌, refl, inl, inr, arith, ap, true, false, none, some, List, [], ◌∷◌, one_if,
  Bool-cases,
}
use jmux.Base.Names.{times, listed}
use jmux.Base.Text.{Text, text_eq, text_eq→eq, text_eq_refl}
use jmux.Graph.Relax.{at_some}
use jmux.Graph.Proposal.{ProposalError, unknown_dep, self_dep, dep_twice, check_deps}

-- Dependencies that the check of a node passes, where `seen` were met before.
pub record AreSound (known : List Text) (id : Text) (deps seen : List Text) : Type 0 where
  pub all_known : (d : Text) → listed deps d ≡ true → listed known d ≡ true
  pub not_self : listed deps id ≡ false
  pub no_repeat : (d : Text) → times d deps + one_if (listed seen d) ≤ 1

pub check_deps-AreSound :
    (known : List Text) (id : Text) (deps seen : List Text)
    → check_deps known id deps seen ≡ none
    → AreSound known id deps seen
unfolding check_deps
check_deps-AreSound known id [] seen h = record {
  all_known = λ d d_in. cc;
  not_self = refl;
  no_repeat = λ d. ground arith;
}
check_deps-AreSound known id (e ∷ deps) seen h =
    let known_e : listed known e ≡ true = ground arith in
    let other : text_eq e id ≡ false = ground arith in
    let new : listed seen e ≡ false = ground arith in
    let r : AreSound known id deps (e ∷ seen) =
      check_deps-AreSound known id deps (e ∷ seen) (ground arith) in
    record {
      all_known = λ d d_in. elim (Bool-cases (text_eq e d)) [
        | inl same ↦ ground (arith, ap (listed known) (text_eq→eq e d same))
        | inr differs ↦ r.all_known d (ground (arith, d_in))
      ];
      not_self = ground (arith, r.not_self);
      no_repeat = λ d. elim (Bool-cases (text_eq e d)) [
        | inl same ↦ ground (arith, r.no_repeat d, ap (listed seen) (text_eq→eq e d same))
        | inr differs ↦ ground (arith, r.no_repeat d)
      ];
    }

pub AreSound-check_deps :
    (known : List Text) (id : Text) (deps seen : List Text)
    → AreSound known id deps seen
    → check_deps known id deps seen ≡ none
unfolding check_deps
AreSound-check_deps known id [] seen r = refl
AreSound-check_deps known id (e ∷ deps) seen r =
    let known_e : listed known e ≡ true = r.all_known e (ground (arith, text_eq_refl e)) in
    let new : listed seen e ≡ false = ground (arith, r.no_repeat e, text_eq_refl e) in
    let other : text_eq e id ≡ false = ground (arith, r.not_self) in
    let rest : check_deps known id deps (e ∷ seen) ≡ none =
      AreSound-check_deps known id deps (e ∷ seen) record {
        all_known = λ d d_in. r.all_known d (ground (arith, d_in));
        not_self = ground (arith, r.not_self);
        no_repeat = λ d. ground (arith, r.no_repeat d);
      } in
    ground arith

-- What an error about the dependencies is about; `seen` were met before.
pub data BlamesDeps (known : List Text) (id : Text) (deps seen : List Text)
    : ProposalError → Type 0 where
  is_unknown :
      (d : Text)
      → listed deps d ≡ true
      → listed known d ≡ false
      → BlamesDeps known id deps seen (unknown_dep id d)
  is_self : listed deps id ≡ true → BlamesDeps known id deps seen (self_dep id)
  is_repeated :
      (d : Text)
      → 1 < times d deps + one_if (listed seen d)
      → BlamesDeps known id deps seen (dep_twice id d)

blames-later :
    (known : List Text) (id d : Text) (deps seen : List Text) (e : ProposalError)
    → listed seen d ≡ false
    → BlamesDeps known id deps (d ∷ seen) e
    → BlamesDeps known id (d ∷ deps) seen e
blames-later known id d deps seen e new (is_unknown y y_in unknown) =
    is_unknown y (ground (arith, y_in)) unknown
blames-later known id d deps seen e new (is_self id_in) = is_self (ground (arith, id_in))
blames-later known id d deps seen e new (is_repeated y twice) =
    is_repeated y (elim (Bool-cases (text_eq d y)) [
      | inl same ↦ ground (arith, ap (listed seen) (text_eq→eq d y same))
      | inr differs ↦ ground (arith, twice)
    ])

pub check_deps-blames :
    (known : List Text) (id : Text) (deps seen : List Text) (e : ProposalError)
    → check_deps known id deps seen ≡ some e
    → BlamesDeps known id deps seen e
unfolding check_deps
check_deps-blames known id [] seen e h = cc
check_deps-blames known id (d ∷ deps) seen e h = elim (Bool-cases (listed known d)) [
  | inr unknown ↦
      the_error (unknown_dep id d) (rw (unknown) at h)
        (is_unknown d (rw (text_eq_refl d) refl) unknown)
  | inl is_known ↦ elim (Bool-cases (text_eq d id)) [
    | inl same ↦ the_error (self_dep id) (rw (is_known, same) at h) (is_self (rw (same) refl))
    | inr differs ↦ elim (Bool-cases (listed seen d)) [
      | inl twice ↦
          the_error (dep_twice id d) (rw (is_known, differs, twice) at h)
            (is_repeated d (ground (arith, text_eq_refl d)))
      | inr new ↦
          blames-later known id d deps seen e new
            (check_deps-blames known id deps (d ∷ seen) e (rw (is_known, differs, new) at h))
    ]
  ]
]
  where
    the_error :
        (e' : ProposalError)
        → some e' ≡ some e
        → BlamesDeps known id (d ∷ deps) seen e'
        → BlamesDeps known id (d ∷ deps) seen e
    the_error e' same b = subst (λ o. at_some o Unit (BlamesDeps known id (d ∷ deps) seen)) same b
