-- ===== src/Tabs/Bulk.antt =====
-- What the operations that close several workspaces leave (jmux/src/model/tab_manager.rs).
use jmux.Base.{
  ==_iff, any, is_nil, is_some, if◌then◌else◌, inl, inr, sym, ◌∙◌, ◌<◌, ◌==◌, ◌||◌, false, none,
  Option, Option-cases, Bool-cases, get_elem?, get_elem?-position, ℕ, zero, suc, ◌+◌, ◌≡◌, ap, refl,
  arith, Bool, not, some, List, [], ◌∷◌, ◌++◌, map, Uuid, length, position, drop, take, erase_idx,
  retain,
}
use jmux.Base.Pieces.{any-position}
use jmux.Workspace.{Workspace}
use jmux.Tabs.{TabManager, has_id}
use jmux.Tabs.Close.{
  indices, remove_rev, not_pinned, is_other, close_others, close_above, close_below, kept_selection,
}

map_shift : (k : ℕ) (is : List ℕ) → map (λ i. suc k + i) is ≡ map suc (map (λ i. k + i) is)
map_shift k [] = refl
map_shift k (i ∷ is) = ground (arith, map_shift k is)

map_zero_add : (is : List ℕ) → map (λ i. 0 + i) is ≡ is
map_zero_add [] = refl
map_zero_add (i ∷ is) = ground (arith, map_zero_add is)

length-map-suc : (is : List ℕ) → length (map suc is) ≡ length is
length-map-suc [] = refl
length-map-suc (i ∷ is) = ap suc (length-map-suc is)

module _ {ℓ} {A : Type ℓ} where
  remove_rev-suc :
      (x : A) (xs : List A) (is : List ℕ) → remove_rev (x ∷ xs) (map suc is) ≡ x ∷ remove_rev xs is
  unfolding remove_rev
  remove_rev-suc x xs [] = refl
  remove_rev-suc x xs (i ∷ is) = ap (λ ys. erase_idx ys (suc i)) (remove_rev-suc x xs is)

  remove_rev-indices :
      (p : A → Bool) (xs : List A) → remove_rev xs (indices p xs) ≡ retain (λ x. not (p x)) xs
  unfolding remove_rev indices
  remove_rev-indices p [] = refl
  remove_rev-indices p (x ∷ xs) =
      ground (arith, remove_rev-suc x xs (indices p xs), remove_rev-indices p xs)

  pub remove_rev-take :
      (p : A → Bool) (k : ℕ) (xs : List A)
      → remove_rev xs (indices p (take k xs)) ≡ retain (λ x. not (p x)) (take k xs) ++ drop k xs
  unfolding remove_rev indices
  remove_rev-take p zero xs = refl
  remove_rev-take p (suc k) [] = refl
  remove_rev-take p (suc k) (x ∷ xs) =
      ground (arith, remove_rev-suc x xs (indices p (take k xs)), remove_rev-take p k xs)

  pub remove_rev-drop :
      (p : A → Bool) (k : ℕ) (xs : List A)
      → remove_rev xs (map (λ i. k + i) (indices p (drop k xs)))
        ≡ take k xs ++ retain (λ x. not (p x)) (drop k xs)
  unfolding remove_rev
  remove_rev-drop p zero xs = rw (map_zero_add (indices p xs)) (remove_rev-indices p xs)
  remove_rev-drop p (suc k) [] = unfold indices in refl
  remove_rev-drop p (suc k) (x ∷ xs) =
      rw
        (
          map_shift k (indices p (drop k xs)),
          remove_rev-suc x xs (map (λ i. k + i) (indices p (drop k xs))),
          remove_rev-drop p k xs,
        )
        refl

  length-indices :
      (p : A → Bool) (xs : List A)
      → length (indices p xs) + length (retain (λ x. not (p x)) xs) ≡ length xs
  unfolding indices
  length-indices p [] = refl
  length-indices p (x ∷ xs) = ground (arith, length-indices p xs, length-map-suc (indices p xs))

module _ {ℓ} {A : Type ℓ} where
  retain-eq : (p q : A → Bool) (xs : List A) → ((x : A) → p x ≡ q x) → retain p xs ≡ retain q xs
  retain-eq p q [] h = refl
  retain-eq p q (x ∷ xs) h = rw (h x, retain-eq p q xs h) refl

  -- No element before the first that is found is one.
  pub position-first :
      (p : A → Bool) (xs : List A) (i : ℕ) → position p xs ≡ some i → any p (take i xs) ≡ false
  position-first p [] i e = cc
  position-first p (x ∷ xs) i e = elim (Bool-cases (p x)) [
    | inl here ↦ let start : i ≡ 0 = ground arith in rw start refl
    | inr later ↦ elim (Option-cases (position p xs)) [
      | inl absent ↦ absurd (ground arith)
      | inr (j, found) ↦
          let next : i ≡ suc j = ground arith in rw (next, later) (position-first p xs j found)
    ]
  ]

module _ {F : Type 0} where
  -- The selection that is left after the others are closed: the first workspace with the identifier,
  -- or the first of all where there is none, or nothing in an empty list.
  pub data Chosen (keep_id : Uuid) (kept : List (Workspace F)) : Option ℕ → Type 0 where
    stays :
        (i : ℕ) (ws : Workspace F)
        → get_elem? kept i ≡ some ws
        → ws.id ≡ keep_id
        → any (λ (w : Workspace F). w.id == keep_id) (take i kept) ≡ false
        → Chosen keep_id kept (some i)
    falls_back :
        any (λ (w : Workspace F). w.id == keep_id) kept ≡ false
        → 0 < length kept
        → Chosen keep_id kept (some 0)
    nothing : kept ≡ [] → Chosen keep_id kept none

  kept_selection-Chosen :
      (keep_id : Uuid) (kept : List (Workspace F))
      → Chosen keep_id kept (kept_selection kept keep_id)
  kept_selection-Chosen keep_id kept = elim (Option-cases (position (has_id keep_id) kept)) [
    | inr (i, e) ↦
        let (ws, at_i, same) = get_elem?-position (has_id keep_id) kept i e in
        rw (e, kept_selection)
          (stays i ws at_i ((==_iff ws.id keep_id).0 same)
            (position-first (has_id keep_id) kept i e))
    | inl e ↦
        rw (e, kept_selection)
          (fallback kept (sym (any-position (has_id keep_id) kept) ∙ ap is_some e))
  ]
    where
      fallback :
          (xs : List (Workspace F))
          → any (has_id keep_id) xs ≡ false
          → Chosen keep_id xs (if is_nil xs then none else some 0)
      fallback [] absent = nothing refl
      fallback (x ∷ xs) absent = falls_back absent (omega arith)

  -- `close_others`, which removes by descending indices, keeps in their order exactly the
  -- workspaces that have the given identifier or are pinned, selects the first with the identifier,
  -- or the first of all if there is none, or nothing if none is left, and returns the number of
  -- those closed.
  pub close_others_lem :
      (tabs : TabManager F) (keep_id : Uuid)
      → ((close_others tabs keep_id).0.workspaces
          ≡ retain (λ (ws : Workspace F). ws.id == keep_id || ws.is_pinned) tabs.workspaces)
        × Chosen keep_id
            (close_others tabs keep_id).0.workspaces
            (close_others tabs keep_id).0.selected_index
        × ((close_others tabs keep_id).1 + length (close_others tabs keep_id).0.workspaces
            ≡ length tabs.workspaces)
  unfolding close_others
  close_others_lem tabs keep_id =
      let e = remove_rev-indices (is_other keep_id) tabs.workspaces in
      (
        e ∙ retain-eq _ _ tabs.workspaces (λ ws. ground arith),
        kept_selection-Chosen keep_id _,
        rw e (length-indices (is_other keep_id) tabs.workspaces),
      )

  -- If the given workspace is at index `target`, `close_above` drops exactly the unpinned
  -- workspaces before it and keeps the order of the others.
  close_above-workspaces :
      (tabs : TabManager F) (id : Uuid) (target : ℕ)
      → position (has_id id) tabs.workspaces ≡ some target
      → (close_above tabs id).0.workspaces
        ≡ retain (λ ws. not (not_pinned ws)) (take target tabs.workspaces)
          ++ drop target tabs.workspaces
  unfolding close_above
  close_above-workspaces tabs id target e =
      rw (e, close_above) (remove_rev-take not_pinned target tabs.workspaces)

  -- If the given workspace is at index `target`, `close_below` drops exactly the unpinned
  -- workspaces behind it and keeps the order of the others.
  close_below-workspaces :
      (tabs : TabManager F) (id : Uuid) (target : ℕ)
      → position (has_id id) tabs.workspaces ≡ some target
      → (close_below tabs id).0.workspaces
        ≡ take (target + 1) tabs.workspaces
          ++ retain (λ ws. not (not_pinned ws)) (drop (target + 1) tabs.workspaces)
  unfolding close_below
  close_below-workspaces tabs id target e =
      rw (e, close_below) (remove_rev-drop not_pinned (target + 1) tabs.workspaces)
