-- ===== src/Graph/Unmet.antt =====
-- The dependencies of a node that are not among the popped nodes, for the cycle check
-- (jmux/src/goal/graph.rs).
use jmux.Base.{
  ℕ, ◌+◌, ◌≡◌, ◌≤◌, refl, inl, inr, arith, ap, true, false, not, List, [], ◌∷◌, length, retain,
  one_if, Bool-cases,
}
use jmux.Base.Names.{times, listed, listed-times, text_eq_comm}
use jmux.Base.Text.{Text, text_eq, text_eq→eq, text_eq_refl}

abbrev pub unmet : List Text → List Text → ℕ
unmet popped ds = length (retain (λ d. not (listed popped d)) ds)

pub unmet-nil : (ds : List Text) → unmet [] ds ≡ length ds
unmet-nil [] = refl
unmet-nil (d ∷ ds) = ground (arith, unmet-nil ds)

-- A node that is popped for the first time is met wherever it stands.
unmet-popped :
    (id : Text) (popped ds : List Text)
    → listed popped id ≡ false
    → unmet (id ∷ popped) ds + times id ds ≡ unmet popped ds
unmet-popped id popped [] fresh = refl
unmet-popped id popped (d ∷ ds) fresh = elim (Bool-cases (text_eq id d)) [
  | inl same ↦ ground (
    arith,
    unmet-popped id popped ds fresh,
    ap (listed popped) (text_eq→eq id d same),
    text_eq_comm id d,
  )
  | inr other ↦ ground (arith, unmet-popped id popped ds fresh, text_eq_comm id d)
]

-- One dependency less, or none, where no dependency is listed twice.
pub unmet-lost :
    (id : Text) (popped ds : List Text)
    → listed popped id ≡ false
    → times id ds ≤ 1
    → unmet popped ds ≡ unmet (id ∷ popped) ds + one_if (listed ds id)
unmet-lost id popped ds fresh once =
    ground (arith, unmet-popped id popped ds fresh, listed-times ds id)

pub unmet-listed :
    (popped ds : List Text) (d : Text)
    → unmet popped ds ≡ 0
    → listed ds d ≡ true
    → listed popped d ≡ true
unmet-listed popped [] d none_left h = cc
unmet-listed popped (e ∷ ds) d none_left h = elim (Bool-cases (text_eq e d)) [
  | inl same ↦ ground (arith, ap (listed popped) (text_eq→eq e d same))
  | inr other ↦ ground (arith, unmet-listed popped ds d)
]

pub unmet-all :
    (popped ds : List Text)
    → ((d : Text) → listed ds d ≡ true → listed popped d ≡ true)
    → unmet popped ds ≡ 0
unmet-all popped [] h = refl
unmet-all popped (d ∷ ds) h =
    ground (arith, h d, text_eq_refl d, unmet-all popped ds (λ e e_in. h e (ground (arith, e_in))))
