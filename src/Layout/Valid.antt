-- ===== src/Layout/Valid.antt =====
-- The shape that the layout code keeps: no pane is empty and each pane shows one of its own panels,
-- except that the whole layout may be the empty pane (jmux/src/model/panel.rs).
use jmux.Base.{
  ℕ, ◌==◌, ◌≡◌, ◌≢◌, refl, inl, inr, ◌⊎◌, Bool, true, false, ◌&&◌, ◌||◌, Option, none, some, List,
  [], ◌∷◌, arith, if◌then◌else◌, Uuid, contains, contains-count, head?, count-erase_idx, Bool-cases,
  Option-cases, erase_idx, is_some_eq,
}
use jmux.Layout.{SplitOrientation, Direction, LayoutNode, pane, split, index_of, is_empty}
use jmux.Layout.Count.{remove_panel-false-occurs}
use jmux.Layout.Edit.{
  swap_id, swap_ids, find_pane_with_panel, select_panel, collapse, remove_panel, swap_panels,
  split_pane_with_panel,
}

-- The selected panel of a pane is one of its panels.
abbrev pub selects : List Uuid → Option Uuid → Bool
selects ids none = false
selects ids (some id) = contains ids id

module _ {F : Type 0} where
  -- Every pane holds a panel and has one of its own panels selected.
  abbrev pub is_full : LayoutNode F → Bool
  is_full (pane ids sel) = selects ids sel
  is_full (split o d first second) = is_full first && is_full second

  abbrev pub is_blank : LayoutNode F → Bool
  is_blank (pane [] none) = true
  is_blank (pane _ _) = false
  is_blank (split o d first second) = false

  abbrev pub IsValid : LayoutNode F → Type 0
  IsValid layout = (is_full layout ≡ true) ⊎ (is_blank layout ≡ true)

  is_full→not_empty : (layout : LayoutNode F) → is_full layout ≡ true → is_empty layout ≡ false
  unfolding is_empty
  is_full→not_empty (pane [] none) h = cc
  is_full→not_empty (pane [] (some s)) h = cc
  is_full→not_empty (pane (id ∷ ids) sel) h = refl
  is_full→not_empty (split o d first second) h =
      ground (arith, is_full→not_empty first, is_full→not_empty second)

  is_blank→empty : (layout : LayoutNode F) → is_blank layout ≡ true → is_empty layout ≡ true
  unfolding is_empty
  is_blank→empty (pane [] sel) h = refl
  is_blank→empty (pane (id ∷ ids) sel) h = cc
  is_blank→empty (split o d first second) h = cc

contains-head : (ids : List Uuid) (id : Uuid) → contains (id ∷ ids) id ≡ true
contains-head ids id = ground arith

contains-erase_idx :
    (ids : List Uuid) (p s : Uuid) (i : ℕ)
    → index_of ids p ≡ some i
    → contains ids s ≡ true
    → s ≢ p
    → contains (erase_idx ids i) s ≡ true
contains-erase_idx ids p s i e c ne =
    ground
      (arith, contains-count ids s, contains-count (erase_idx ids i) s, count-erase_idx s p ids i)

head?-selects :
    (rest : List Uuid) → (selects rest (head? rest) ≡ true) ⊎ ((rest ≡ []) × (head? rest ≡ none))
head?-selects [] = inr (refl, refl)
head?-selects (x ∷ rest) = inl (contains-head rest x)

-- What `remove_panel` leaves of a pane shows one of its panels, or is blank.
erase_idx-selects :
    (ids : List Uuid) (sel : Option Uuid) (p : Uuid) (i : ℕ)
    → index_of ids p ≡ some i
    → selects ids sel ≡ true
    → (selects (erase_idx ids i) (if is_some_eq sel p then head? (erase_idx ids i) else sel) ≡ true)
      ⊎ ((erase_idx ids i ≡ [])
          × ((if is_some_eq sel p then head? (erase_idx ids i) else sel) ≡ none))
erase_idx-selects ids none p i e h = cc
erase_idx-selects ids (some s) p i e h = elim (Bool-cases (s == p)) [
  | inl same ↦ rw same (head?-selects (erase_idx ids i))
  | inr other ↦ inl (rw other (contains-erase_idx ids p s i e h (λ q. ground arith)))
]

contains-swap_ids :
    (a b : Uuid) (ids : List Uuid) (s : Uuid)
    → contains ids s ≡ true
    → contains (swap_ids a b ids) (swap_id a b s) ≡ true
contains-swap_ids a b [] s h = cc
contains-swap_ids a b (id ∷ ids) s h = ground (arith, contains-swap_ids a b ids s)

module _ {F : Type 0} where
  collapse-IsValid :
      (o : SplitOrientation) (d : F) (first second : LayoutNode F)
      → IsValid first
      → IsValid second
      → (is_full first || is_full second) ≡ true
      → IsValid (collapse o d first second)
  unfolding collapse
  collapse-IsValid o d first second v w h = ground (
    arith,
    is_full→not_empty first,
    is_full→not_empty second,
    is_blank→empty first,
    is_blank→empty second,
  )

  remove_panel-full :
      (layout : LayoutNode F) (p : Uuid) → is_full layout ≡ true → IsValid (remove_panel layout p).0
  unfolding remove_panel
  remove_panel-full (pane ids sel) p h = elim (Option-cases (index_of ids p)) [
    | inl e ↦ ground arith
    | inr (i, e) ↦ ground (arith, erase_idx-selects ids sel p i)
  ]
  remove_panel-full (split o d first second) p h = elim (Bool-cases (remove_panel first p).1) [
    | inl found ↦
        ground
          (arith, collapse-IsValid o d (remove_panel first p).0 second, remove_panel-full first p)
    | inr absent ↦ elim (Bool-cases (remove_panel second p).1) [
      | inl found ↦ ground (
        arith,
        collapse-IsValid o d (remove_panel first p).0 (remove_panel second p).0,
        remove_panel-full first p,
        remove_panel-full second p,
        remove_panel-false-occurs first p,
      )
      | inr absent' ↦
          ground (arith, remove_panel-false-occurs first p, remove_panel-false-occurs second p)
    ]
  ]

  -- If every pane of a tree holds a panel and shows one of its own, or the tree is the empty pane,
  -- the same holds after `remove_panel`: an emptied pane collapses into its sibling.
  pub remove_panel-IsValid :
      (layout : LayoutNode F) (p : Uuid) → IsValid layout → IsValid (remove_panel layout p).0
  remove_panel-IsValid layout p (inl h) = remove_panel-full layout p h
  remove_panel-IsValid (pane [] none) p (inr h) = inr (unfold remove_panel in refl)
  remove_panel-IsValid (pane [] (some s)) p (inr h) = cc
  remove_panel-IsValid (pane (x ∷ xs) s) p (inr h) = cc
  remove_panel-IsValid (split o d first second) p (inr h) = cc

  pub find_pane_with_panel-full :
      (layout : LayoutNode F) (p : Uuid) (write : List Uuid → Option Uuid → LayoutNode F)
      → ((ids : List Uuid) (sel : Option Uuid)
          → contains ids p ≡ true
          → selects ids sel ≡ true
          → is_full (write ids sel) ≡ true)
      → is_full layout ≡ true
      → is_full (find_pane_with_panel layout p write).0 ≡ true
  unfolding find_pane_with_panel
  find_pane_with_panel-full (pane ids sel) p write w h = ground (arith, w ids sel)
  find_pane_with_panel-full (split o d first second) p write w h =
      ground (
        arith,
        find_pane_with_panel-full first p write w,
        find_pane_with_panel-full second p write w,
      )

  pub split_pane_with_panel-full :
      (half : F) (layout : LayoutNode F) (target p : Uuid) (o : SplitOrientation) (d : Direction)
      → is_full layout ≡ true
      → is_full (split_pane_with_panel half layout target p o d).0 ≡ true
  unfolding split_pane_with_panel
  split_pane_with_panel-full half (pane ids sel) target p o d h = ground (arith, contains-head [] p)
  split_pane_with_panel-full half (split q e first second) target p o d h = ground (
    arith,
    split_pane_with_panel-full half first target p o d,
    split_pane_with_panel-full half second target p o d,
  )

  pub select_panel-full :
      (layout : LayoutNode F) (p : Uuid)
      → is_full layout ≡ true
      → is_full (select_panel layout p).0 ≡ true
  unfolding select_panel
  select_panel-full (pane ids sel) p h = ground arith
  select_panel-full (split q e first second) p h =
      ground (arith, select_panel-full first p, select_panel-full second p)

  swap_panels-full :
      (layout : LayoutNode F) (a b : Uuid)
      → is_full layout ≡ true
      → is_full (swap_panels layout a b).0 ≡ true
  unfolding swap_panels
  swap_panels-full (pane ids none) a b h = cc
  swap_panels-full (pane ids (some s)) a b h = contains-swap_ids a b ids s h
  swap_panels-full (split q e first second) a b h =
      ground (arith, swap_panels-full first a b, swap_panels-full second a b)
