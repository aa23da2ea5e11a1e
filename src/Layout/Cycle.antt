-- ===== src/Layout/Cycle.antt =====
-- Cycling through panels: `next_panel_id`, `prev_panel_id` and the tab cycling within a pane
-- (jmux/src/model/panel.rs).
use jmux.Base.{
  ℕ, suc, zero, ◌+◌, ◌-◌, ◌%◌, ◌==◌, ◌≡◌, ◌≤◌, ◌<◌, refl, inl, inr, true, false, none, some, List,
  [], ◌∷◌, arith, if◌then◌else◌, Uuid, count, contains, contains-count, length, get_elem?,
  position-lt, get_elem?-position, count-position-none, Bool-cases, Option-cases, ==_iff,
}
use native.Mathlib.Nat.{mod-eq_of_lt, mod_self}
use jmux.Layout.{
  LayoutNode, pane, split, index_of, all_panel_ids, next_in, prev_in, next_panel_id, prev_panel_id,
  next_panel_in_pane, find_pane_with_panel_readonly,
}
use jmux.Layout.Count.{occurs}

-- No identifier stands twice in the list.
abbrev IsNodup : List Uuid → Type 0
IsNodup ids = (x : Uuid) → count x ids ≤ 1

IsNodup-tail : (x : Uuid) (xs : List Uuid) → IsNodup (x ∷ xs) → IsNodup xs
IsNodup-tail x xs h y = omega (arith, h y)

get_elem?-lt : (ids : List Uuid) (i : ℕ) → i < length ids → (a : Uuid) × (get_elem? ids i ≡ some a)
get_elem?-lt [] i h = elim h [ ]
get_elem?-lt (x ∷ xs) zero h = (x, refl)
get_elem?-lt (x ∷ xs) (suc i) h = get_elem?-lt xs i (omega arith)

get_elem?-count : (ids : List Uuid) (i : ℕ) (a : Uuid) → get_elem? ids i ≡ some a → 0 < count a ids
get_elem?-count [] i a h = cc
get_elem?-count (x ∷ xs) zero a h = ground arith
get_elem?-count (x ∷ xs) (suc i) a h = ground (arith, get_elem?-count xs i a h)

-- Where no identifier stands twice, an element is found at its own index.
index_of-get_elem? :
    (ids : List Uuid) (i : ℕ) (a : Uuid)
    → IsNodup ids
    → get_elem? ids i ≡ some a
    → index_of ids a ≡ some i
index_of-get_elem? [] i a n h = cc
index_of-get_elem? (x ∷ xs) zero a n h = ground arith
index_of-get_elem? (x ∷ xs) (suc i) a n h =
    ground (arith, index_of-get_elem? xs i a (IsNodup-tail x xs n) h, get_elem?-count xs i a h, n a)

index_of-some :
    (ids : List Uuid) (a : Uuid)
    → 0 < count a ids
    → (i : ℕ) × (index_of ids a ≡ some i) × (i < length ids) × (get_elem? ids i ≡ some a)
index_of-some ids a h = elim (Option-cases (index_of ids a)) [
  | inl e ↦ absurd (omega (arith, count-position-none a ids e))
  | inr (i, e) ↦
      let (b, at_i, same) = get_elem?-position (λ id. id == a) ids i e in
      (i, e, position-lt (λ id. id == a) ids i e, ground (arith, ==_iff b a))
]

-- The index behind `i` on a ring of `n`.
next_index : (n i : ℕ) → i < n → (i + 1) % n ≡ (if i + 1 == n then 0 else i + 1)
next_index n i h = elim (Bool-cases (i + 1 == n)) [
  | inl last ↦ rw last (rw ((==_iff (i + 1) n).0 last) (mod_self n))
  | inr inner ↦ rw inner (mod-eq_of_lt (ground arith))
]

module _ (ids : List Uuid) (current : Uuid) (once : IsNodup ids)
    (here : 0 < count current ids) where
  -- One step forward and one back is no step.
  next_in-prev_in :
      (next : Uuid) × (next_in ids current ≡ some next) × (prev_in ids next ≡ some current)
  unfolding next_in prev_in
  next_in-prev_in =
      let (i, e, lt, at_i) = index_of-some ids current here in
      let (next, at_next) =
        get_elem?-lt ids ((i + 1) % length ids) (ground (arith, next_index (length ids) i lt)) in
      let found = index_of-get_elem? ids ((i + 1) % length ids) next once at_next in
      (next, ground arith, ground (arith, next_index (length ids) i lt))

  prev_in-next_in :
      (prev : Uuid) × (prev_in ids current ≡ some prev) × (next_in ids prev ≡ some current)
  unfolding next_in prev_in
  prev_in-next_in =
      let (i, e, lt, at_i) = index_of-some ids current here in
      let j = if i == 0 then length ids - 1 else i - 1 in
      let (prev, at_prev) = get_elem?-lt ids j (ground arith) in
      let found = index_of-get_elem? ids j prev once at_prev in
      (prev, ground arith, ground (arith, next_index (length ids) j (ground arith)))

index_of-contains : (ids : List Uuid) (x : Uuid) (i : ℕ) → index_of ids x ≡ some i → 0 < count x ids
index_of-contains [] x i h = cc
index_of-contains (y ∷ ys) x zero h = ground arith
index_of-contains (y ∷ ys) x (suc i) h = ground (arith, index_of-contains ys x i)

next_in-absent : (ids : List Uuid) (x : Uuid) → contains ids x ≡ false → next_in ids x ≡ none
unfolding next_in
next_in-absent ids x h = elim (Option-cases (index_of ids x)) [
  | inl e ↦ ground arith
  | inr (i, e) ↦ absurd (ground (arith, contains-count ids x, index_of-contains ids x i e))
]

next_in-present :
    (ids : List Uuid) (x : Uuid) → contains ids x ≡ true → (y : Uuid) × (next_in ids x ≡ some y)
unfolding next_in
next_in-present ids x h =
    let (i, e, lt, at_i) = index_of-some ids x (ground (arith, contains-count ids x)) in
    let (y, at_y) =
      get_elem?-lt ids ((i + 1) % length ids) (ground (arith, next_index (length ids) i lt)) in
    (y, ground arith)

module _ {F : Type 0} where
  -- In a layout where no panel stands twice, `next_panel_id` of a panel of the layout is a panel
  -- from which `prev_panel_id` leads back.
  pub next_panel_id-prev_panel_id :
      (layout : LayoutNode F) (current : Uuid)
      → ((x : Uuid) → occurs layout x ≤ 1)
      → 0 < occurs layout current
      → (next : Uuid) × (next_panel_id layout current ≡ some next)
        × (prev_panel_id layout next ≡ some current)
  unfolding next_panel_id prev_panel_id
  next_panel_id-prev_panel_id layout current once here =
      next_in-prev_in (all_panel_ids layout) current once here

  -- In a layout where no panel stands twice, `prev_panel_id` of a panel of the layout is a panel
  -- from which `next_panel_id` leads back.
  prev_panel_id-next_panel_id :
      (layout : LayoutNode F) (current : Uuid)
      → ((x : Uuid) → occurs layout x ≤ 1)
      → 0 < occurs layout current
      → (prev : Uuid) × (prev_panel_id layout current ≡ some prev)
        × (next_panel_id layout prev ≡ some current)
  unfolding next_panel_id prev_panel_id
  prev_panel_id-next_panel_id layout current once here =
      prev_in-next_in (all_panel_ids layout) current once here

  -- The pane that `find_pane_with_panel_readonly` finds holds the panel.
  pub find_pane-contains :
      (layout : LayoutNode F) (p : Uuid) (ids : List Uuid)
      → find_pane_with_panel_readonly layout p ≡ some ids
      → contains ids p ≡ true
  unfolding find_pane_with_panel_readonly
  find_pane-contains (pane qs sel) p ids h = ground arith
  find_pane-contains (split o d first second) p ids h =
      ground (arith, find_pane-contains first p ids, find_pane-contains second p ids)

  -- `next_panel_in_pane` is the next tab, in circular order, of the pane that
  -- `find_pane_with_panel_readonly` finds, and nothing if it finds none.
  next_panel_in_pane-eq-next_in :
      (layout : LayoutNode F) (current : Uuid)
      → next_panel_in_pane layout current ≡ (elim (find_pane_with_panel_readonly layout current) [
        | none ↦ none
        | some ids ↦ next_in ids current
      ])
  unfolding next_panel_in_pane find_pane_with_panel_readonly
  next_panel_in_pane-eq-next_in (pane ids sel) current = elim (Bool-cases (contains ids current)) [
    | inl here ↦ ground arith
    | inr absent ↦ ground (arith, next_in-absent ids current absent)
  ]
  next_panel_in_pane-eq-next_in (split o d first second) current =
      elim (Option-cases (find_pane_with_panel_readonly first current)) [
        | inl e ↦ ground (
          arith,
          next_panel_in_pane-eq-next_in first current,
          next_panel_in_pane-eq-next_in second current,
        )
        | inr (ids, e) ↦
            let (y, found) = next_in-present ids current (find_pane-contains first current ids e) in
            ground (arith, next_panel_in_pane-eq-next_in first current)
      ]
