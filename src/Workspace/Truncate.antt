-- ===== src/Workspace/Truncate.antt =====
-- `truncate_str` cuts at the last character boundary (jmux/src/model/workspace.rs).
use jmux.Base.{
  ℕ, zero, suc, ◌≡◌, ◌⊎◌, sym, leb, ◌≤◌, ◌<◌, refl, inl, inr, arith, true, false, none, [], ◌∷◌,
  length, take, get_elem?, Bool-cases, length-take,
}
use jmux.Base.Text.{Text}
use jmux.Workspace.Entries.{is_char_boundary, boundary_below, truncate_str}

boundary_below-le : (s : Text) (n : ℕ) → boundary_below s n ≤ n
unfolding boundary_below
boundary_below-le s zero = omega arith
boundary_below-le s (suc n) = ground (arith, boundary_below-le s n)

is_char_boundary-boundary_below :
    (s : Text) (n : ℕ) → is_char_boundary s (boundary_below s n) ≡ true
unfolding is_char_boundary boundary_below
is_char_boundary-boundary_below s zero = refl
is_char_boundary-boundary_below s (suc n) = elim (Bool-cases (is_char_boundary s (suc n))) [
  | inl here ↦ rw (boundary_below, here) here
  | inr past ↦ rw (boundary_below, past) (is_char_boundary-boundary_below s n)
]

boundary_below-last :
    (s : Text) (n i : ℕ) → boundary_below s n < i → i ≤ n → is_char_boundary s i ≡ false
unfolding boundary_below
boundary_below-last s zero i above h = absurd (omega arith)
boundary_below-last s (suc n) i above h = elim (Bool-cases (is_char_boundary s (suc n))) [
  | inl here ↦ absurd (omega (arith, at_end here))
  | inr past ↦ elim (ends i h) [
    | inl same ↦ rw same past
    | inr below ↦ boundary_below-last s n i (omega (arith, lower past)) below
  ]
]
  where
    at_end : is_char_boundary s (suc n) ≡ true → boundary_below s (suc n) ≡ suc n
    at_end here = rw (boundary_below, here) refl

    lower : is_char_boundary s (suc n) ≡ false → boundary_below s (suc n) ≡ boundary_below s n
    lower past = rw (boundary_below, past) refl

    ends : (j : ℕ) → j ≤ suc n → (j ≡ suc n) ⊎ (j ≤ n)
    ends j k = omega arith

get_elem?-length : (s : Text) → get_elem? s (length s) ≡ none
get_elem?-length [] = refl
get_elem?-length (x ∷ s) = get_elem?-length s

is_char_boundary-length : (s : Text) → is_char_boundary s (length s) ≡ true
unfolding is_char_boundary
is_char_boundary-length [] = refl
is_char_boundary-length (x ∷ s) = rw (is_char_boundary, get_elem?-length s) (ground arith)

take-length : (s : Text) → take (length s) s ≡ s
take-length [] = refl
take-length (x ∷ s) = rw (take-length s) refl

-- `truncate_str` gives the longest prefix of the text that has at most the given number of bytes
-- and ends at a character boundary.
pub truncate_str_lem :
    (s : Text) (max_bytes : ℕ)
    → (length (truncate_str s max_bytes) ≤ max_bytes)
      × (truncate_str s max_bytes ≡ take (length (truncate_str s max_bytes)) s)
      × (is_char_boundary s (length (truncate_str s max_bytes)) ≡ true)
      × ((i : ℕ)
          → length (truncate_str s max_bytes) < i
          → i ≤ max_bytes
          → i ≤ length s
          → is_char_boundary s i ≡ false)
unfolding truncate_str is_char_boundary
truncate_str_lem s max_bytes = elim (Bool-cases (leb (length s) max_bytes)) [
  | inl fits ↦
      rw (fits, truncate_str)
        (
          ground arith,
          sym (take-length s),
          is_char_boundary-length s,
          λ i above h k. absurd (omega arith),
        )
  | inr long ↦
      let cut : length (take (boundary_below s max_bytes) s) ≡ boundary_below s max_bytes =
        ground (arith, length-take (boundary_below s max_bytes) s, boundary_below-le s max_bytes) in
      rw (long, truncate_str)
        (rw cut (
          boundary_below-le s max_bytes,
          refl,
          is_char_boundary-boundary_below s max_bytes,
          λ i above h k. boundary_below-last s max_bytes i above h,
        ))
]
