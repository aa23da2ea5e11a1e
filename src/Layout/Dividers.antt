-- ===== src/Layout/Dividers.antt =====
-- What the divider operations keep and reach (jmux/src/model/panel.rs).
use jmux.Base.{
  ◌+◌, ◌==◌, ◌≡◌, ◌≤◌, ◌<◌, ◌↔◌, refl, inl, inr, Bool, true, false, ◌&&◌, ◌||◌, List, [], ◌∷◌, ◌++◌,
  arith, leb, Uuid, one_if, count, contains, count-append, contains-count, Bool-cases, ap, ◌∙◌, sym,
}
use mathlib.Core.Path.{ap₂}
use jmux.Base.Float.{FloatOps}
use jmux.Base.Text.{text_eq→eq, text_eq_refl}
use jmux.Layout.{LayoutNode, pane, split, all_panel_ids}
use jmux.Layout.Divider.{
  insert_sorted, sort, same_panel_set, set_divider_position_for_split, resize_panel, equalize,
}

module _ {F : Type 0} where
  -- A predicate on every divider position of a tree.
  abbrev pub AllDividers : (F → Type 0) → LayoutNode F → Type 0
  AllDividers P (pane ids sel) = Unit {0}
  AllDividers P (split o d first second) = P d × AllDividers P first × AllDividers P second

  -- The tree with every divider position replaced by `half`.
  abbrev with_dividers : F → LayoutNode F → LayoutNode F
  with_dividers half (pane ids sel) = pane ids sel
  with_dividers half (split o d first second) =
      split o half (with_dividers half first) (with_dividers half second)

  abbrev any_divider : (F → Bool) → LayoutNode F → Bool
  any_divider p (pane ids sel) = false
  any_divider p (split o d first second) = p d || any_divider p first || any_divider p second

  abbrev is_split : LayoutNode F → Bool
  is_split (pane ids sel) = false
  is_split (split o d first second) = true

module _ {F : Type 0} (fl : FloatOps F) where
  -- `equalize` sets every divider to 0.5, changes nothing else, and returns true exactly if one
  -- divider differed from 0.5.
  equalize_lem :
      (layout : LayoutNode F)
      → ((equalize fl layout).0 ≡ with_dividers fl.half layout)
        × ((equalize fl layout).1 ≡ any_divider (λ d. fl.differs d fl.half) layout)
  unfolding equalize
  equalize_lem (pane ids sel) = (refl, refl)
  equalize_lem (split o d first second) =
      let (a, b) = equalize_lem first in let (c, e) = equalize_lem second in ground arith

  -- A float that is not a NaN.
  abbrev IsNumber : F → Type 0
  IsNumber x = fl.le x x ≡ true

  -- `clamp` brings a number within the bounds that it is given.
  abbrev pub ClampLaw : Type 0
  ClampLaw =
      (x lo hi : F)
      → IsNumber x
      → fl.le lo hi ≡ true
      → (fl.le lo (fl.clamp x lo hi) ≡ true) × (fl.le (fl.clamp x lo hi) hi ≡ true)

  abbrev pub Within : F → F → F → Type 0
  Within lo hi d = (fl.le lo d ≡ true) × (fl.le d hi ≡ true)

  -- The amount added to or taken from a position within the bounds makes a number.
  abbrev pub IsAmount : F → Type 0
  IsAmount amount =
      (d : F)
      → Within fl.low fl.high d
      → IsNumber (fl.add d amount) × IsNumber (fl.add d (fl.neg amount))

  all_panel_ids-resize_panel :
      (layout : LayoutNode F) (p : Uuid) (amount : F)
      → all_panel_ids (resize_panel fl layout p amount).0 ≡ all_panel_ids layout
  unfolding resize_panel
  all_panel_ids-resize_panel (pane ids sel) p amount = refl
  all_panel_ids-resize_panel (split o d first second) p amount =
      ground (
        arith,
        all_panel_ids-resize_panel first p amount,
        all_panel_ids-resize_panel second p amount,
      )

  -- `resize_panel` returns true exactly if the tree is a split and the panel is in it.
  resize_panel-found :
      (layout : LayoutNode F) (p : Uuid) (amount : F)
      → (resize_panel fl layout p amount).1 ≡ (is_split layout && contains (all_panel_ids layout) p)
  unfolding resize_panel
  resize_panel-found (pane ids sel) p amount = refl
  resize_panel-found (split o d first second) p amount = ground (
    arith,
    resize_panel-found first p amount,
    resize_panel-found second p amount,
    count-append p (all_panel_ids first) (all_panel_ids second),
    contains-count (all_panel_ids first) p,
    contains-count (all_panel_ids second) p,
    contains-count (all_panel_ids first ++ all_panel_ids second) p,
  )

  -- If `clamp` brings numbers within its bounds, 0.05 is at most 0.95, and the amount added to or
  -- taken from a position within these bounds is a number, then `resize_panel` keeps all dividers
  -- between 0.05 and 0.95.
  pub resize_panel-Within :
      (layout : LayoutNode F) (p : Uuid) (amount : F)
      → ClampLaw
      → IsAmount amount
      → fl.le fl.low fl.high ≡ true
      → AllDividers (Within fl.low fl.high) layout
      → AllDividers (Within fl.low fl.high) (resize_panel fl layout p amount).0
  unfolding resize_panel
  resize_panel-Within (pane ids sel) p amount law ok bounds h = tt
  resize_panel-Within (split o d first second) p amount law ok bounds h =
      let in_first = contains (all_panel_ids first) p in
      ground (
        arith,
        resize_panel-Within first p amount law ok bounds h.1,
        resize_panel-Within second p amount law ok bounds h.2,
        law (fl.add d amount) fl.low fl.high (ok d h.0).0 bounds,
        law (fl.add d (fl.neg amount)) fl.low fl.high (ok d h.0).1 bounds,
      )

  set_divider-ids :
      (layout : LayoutNode F) (xs ys : List Uuid) (position : F)
      → all_panel_ids (set_divider_position_for_split fl layout xs ys position).0
        ≡ all_panel_ids layout
  unfolding set_divider_position_for_split all_panel_ids
  set_divider-ids (pane ids sel) xs ys position = refl
  set_divider-ids (split o d first second) xs ys position =
      ground (arith, set_divider-ids first xs ys position, set_divider-ids second xs ys position)

-- Sorting keeps how often each identifier stands in the list.
count-insert_sorted :
    (a x : Uuid) (ys : List Uuid) → count a (insert_sorted x ys) ≡ one_if (x == a) + count a ys
unfolding insert_sorted
count-insert_sorted a x [] = refl
count-insert_sorted a x (y ∷ ys) = ground (arith, count-insert_sorted a x ys)

count-sort : (a : Uuid) (xs : List Uuid) → count a (sort xs) ≡ count a xs
unfolding sort
count-sort a [] = refl
count-sort a (x ∷ xs) = omega (arith, count-insert_sorted a x (sort xs), count-sort a xs)

-- Every element is at least `lo`, and each at least the one before it.
abbrev IsSortedFrom : Uuid → List Uuid → Type 0
IsSortedFrom lo [] = Unit {0}
IsSortedFrom lo (x ∷ xs) = (lo ≤ x) × IsSortedFrom x xs

insert_sorted-IsSortedFrom :
    (lo x : Uuid) (ys : List Uuid)
    → lo ≤ x
    → IsSortedFrom lo ys
    → IsSortedFrom lo (insert_sorted x ys)
unfolding insert_sorted
insert_sorted-IsSortedFrom lo x [] h s = (h, tt)
insert_sorted-IsSortedFrom lo x (y ∷ ys) h s = elim (Bool-cases (leb x y)) [
  | inl below ↦ rw below (h, (ground arith, s.1))
  | inr above ↦ rw above (s.0, insert_sorted-IsSortedFrom y x ys (ground arith) s.1)
]

sort-IsSortedFrom : (xs : List Uuid) → IsSortedFrom 0 (sort xs)
unfolding sort
sort-IsSortedFrom [] = tt
sort-IsSortedFrom (x ∷ xs) =
    insert_sorted-IsSortedFrom 0 x (sort xs) (omega arith) (sort-IsSortedFrom xs)

IsSortedFrom-below : (lo a : Uuid) (xs : List Uuid) → IsSortedFrom lo xs → a < lo → count a xs ≡ 0
IsSortedFrom-below lo a [] s h = refl
IsSortedFrom-below lo a (x ∷ xs) s h = ground (arith, IsSortedFrom-below x a xs s.1)

-- Two sorted lists with the same counts are the same list.
sorted_unique :
    (lo lo' : Uuid) (xs ys : List Uuid)
    → IsSortedFrom lo xs
    → IsSortedFrom lo' ys
    → ((a : Uuid) → count a xs ≡ count a ys)
    → xs ≡ ys
sorted_unique lo lo' [] [] s t h = refl
sorted_unique lo lo' [] (y ∷ ys) s t h = absurd (ground (arith, h y))
sorted_unique lo lo' (x ∷ xs) [] s t h = absurd (ground (arith, h x))
sorted_unique lo lo' (x ∷ xs) (y ∷ ys) s t h =
    let e : x ≡ y =
      ground (arith, h x, h y, IsSortedFrom-below x y xs s.1, IsSortedFrom-below y x ys t.1) in
    ap₂ ◌∷◌ e (sorted_unique x y xs ys s.1 t.1 (λ a. ground (arith, h a)))

-- `same_panel_set` is true exactly if every identifier stands in the node as often as in the given
-- list.
same_panel_set_iff :
    {F : Type 0} (node : LayoutNode F) (expected : List Uuid)
    → (same_panel_set node expected ≡ true)
      ↔ ((a : Uuid) → count a (all_panel_ids node) ≡ count a expected)
unfolding same_panel_set
same_panel_set_iff node expected = (
  λ h a.
      sym (count-sort a (all_panel_ids node))
      ∙ ap (count a) (text_eq→eq _ _ h)
      ∙ count-sort a expected,
  λ h.
      rw
        (sorted_unique 0 0 (sort (all_panel_ids node)) (sort expected)
          (sort-IsSortedFrom (all_panel_ids node)) (sort-IsSortedFrom expected)
          (λ a. count-sort a (all_panel_ids node) ∙ h a ∙ sym (count-sort a expected)))
        (text_eq_refl (sort expected)),
)
