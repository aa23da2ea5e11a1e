-- ===== src/Tabs/Follow.antt =====
-- The selection follows the workspace, not its slot, when the list changes around it
-- (jmux/src/model/tab_manager.rs).
use jmux.Base.{
  ℕ, zero, suc, ◌+◌, ◌-◌, ◌==◌, ◌≡◌, ◌≢◌, ◌≤◌, ◌<◌, ap, refl, inl, inr, sym, arith, true, false,
  Option, none, some, List, [], ◌∷◌, if◌then◌else◌, length, get_elem?, ltb, leb, erase_idx,
  insert_idx, Option-cases, Bool-cases, ==_iff, length-erase_idx,
}
use jmux.Workspace.{Workspace}
use jmux.Tabs.{TabManager, Placement, end, after_current, top, at, selected}
use jmux.Tabs.Change.{
  add_workspace_keep_selection, insert_at, shifted, selection_after_remove, selection_after_move,
  remove, move_workspace,
}
use jmux.Tabs.Sound.{IsSound, InRange, get_elem?-some-lt, get_elem?-none-le}

module _ {ℓ} {A : Type ℓ} where
  get_elem?-erase_idx :
      (xs : List A) (i j : ℕ)
      → get_elem? (erase_idx xs i) j ≡ (if ltb j i then get_elem? xs j else get_elem? xs (suc j))
  get_elem?-erase_idx [] i j = ground arith
  get_elem?-erase_idx (x ∷ xs) zero j = ground arith
  get_elem?-erase_idx (x ∷ xs) (suc i) zero = ground arith
  get_elem?-erase_idx (x ∷ xs) (suc i) (suc j) = ground (arith, get_elem?-erase_idx xs i j)

  pub get_elem?-insert_idx :
      (xs : List A) (i j : ℕ) (v : A)
      → i ≤ length xs
      → get_elem? (insert_idx xs i v) j
        ≡ (if ltb j i then get_elem? xs j else (if j == i then some v else get_elem? xs (j - 1)))
  get_elem?-insert_idx xs zero zero v h = ground arith
  get_elem?-insert_idx xs zero (suc j) v h = ground arith
  get_elem?-insert_idx [] (suc i) j v h = elim h [ ]
  get_elem?-insert_idx (x ∷ xs) (suc i) zero v h = ground arith
  get_elem?-insert_idx (x ∷ xs) (suc i) (suc zero) v h =
      ground (arith, get_elem?-insert_idx xs i zero v)
  get_elem?-insert_idx (x ∷ xs) (suc i) (suc (suc j)) v h =
      ground (arith, get_elem?-insert_idx xs i (suc j) v)

no_selection : (n i : ℕ) → selection_after_remove n i none ≡ none
no_selection zero i = refl
no_selection (suc m) i = refl

insert_at-le : (p : Placement) (n : ℕ) (sel : Option ℕ) → InRange sel n → insert_at p n sel ≤ n
insert_at-le end n sel h = omega arith
insert_at-le top n sel h = omega arith
insert_at-le after_current n none h = omega arith
insert_at-le after_current n (some i) h = omega arith

module _ {F : Type 0} where
  removed-follow :
      (xs : List (Workspace F)) (i sel n : ℕ)
      → length xs ≡ suc n
      → sel < length xs
      → i < length xs
      → sel ≢ i
      → at (erase_idx xs i) (selection_after_remove n i (some sel)) ≡ get_elem? xs sel
  removed-follow xs i sel zero e h k ne = absurd (omega arith)
  removed-follow xs i sel (suc m) e h k ne = ground (
    arith,
    get_elem?-erase_idx xs i m,
    get_elem?-erase_idx xs i sel,
    get_elem?-erase_idx xs i (sel - 1),
  )

  moved-follow :
      (xs : List (Workspace F)) (from to sel : ℕ) (ws : Workspace F)
      → get_elem? xs from ≡ some ws
      → to < length xs
      → sel < length xs
      → (from == to) ≡ false
      → at (insert_idx (erase_idx xs from) to ws) (selection_after_move from to (some sel))
        ≡ get_elem? xs sel
  moved-follow xs from to sel ws e ht hs ne =
      let ys = erase_idx xs from in
      let le : to ≤ length ys =
        omega (arith, length-erase_idx xs from (get_elem?-some-lt xs from ws e)) in
      ground (
        arith,
        get_elem?-insert_idx ys to to ws le,
        get_elem?-insert_idx ys to (sel - 1) ws le,
        get_elem?-insert_idx ys to (sel + 1) ws le,
        get_elem?-insert_idx ys to sel ws le,
        get_elem?-erase_idx xs from (sel - 1),
        get_elem?-erase_idx xs from sel,
        get_elem?-erase_idx xs from (sel - 2),
        get_elem?-erase_idx xs from (sel + 1),
      )

  removed_at :
      (xs : List (Workspace F)) (i : ℕ) (sel : Option ℕ)
      → InRange sel (length xs)
      → i < length xs
      → sel ≢ some i
      → at (erase_idx xs i) (selection_after_remove (length (erase_idx xs i)) i sel) ≡ at xs sel
  removed_at xs i none h k ne = rw (no_selection (length (erase_idx xs i)) i)
  removed_at xs i (some sel) h k ne =
      removed-follow xs i sel (length (erase_idx xs i)) (sym (length-erase_idx xs i k)) h k
        (λ e. ne (ap some e))

  moved_at :
      (xs : List (Workspace F)) (from to : ℕ) (sel : Option ℕ) (ws : Workspace F)
      → InRange sel (length xs)
      → get_elem? xs from ≡ some ws
      → to < length xs
      → (from == to) ≡ false
      → at (insert_idx (erase_idx xs from) to ws) (selection_after_move from to sel) ≡ at xs sel
  moved_at xs from to none ws h e ht ne = refl
  moved_at xs from to (some sel) ws h e ht ne = moved-follow xs from to sel ws e ht h ne

  inserted_at :
      (xs : List (Workspace F)) (i : ℕ) (sel : Option ℕ) (ws : Workspace F)
      → InRange sel (length xs)
      → i ≤ length xs
      → at (insert_idx xs i ws) (shifted sel i) ≡ at xs sel
  inserted_at xs i none ws h k = refl
  inserted_at xs i (some sel) ws h k =
      ground (arith, get_elem?-insert_idx xs i sel ws k, get_elem?-insert_idx xs i (sel + 1) ws k)

  -- In a sound tab manager, removing at another index than the selected one leaves the selected
  -- workspace selected.
  remove-selected :
      (tabs : TabManager F) (index now : ℕ)
      → IsSound tabs
      → tabs.selected_index ≢ some index
      → selected (remove tabs index now).0 ≡ selected tabs
  unfolding remove
  remove-selected tabs index now s other = elim (Option-cases (get_elem? tabs.workspaces index)) [
    | inl e ↦ rw (e, remove)
    | inr (ws, e) ↦
        rw (e, remove)
          (removed_at tabs.workspaces index tabs.selected_index s.selection
            (get_elem?-some-lt tabs.workspaces index ws e) other)
  ]

  -- In a sound tab manager `add_workspace_keep_selection` leaves the selected workspace selected,
  -- whatever the placement.
  add_workspace_keep_selection-selected :
      (tabs : TabManager F) (ws : Workspace F) (placement : Placement)
      → IsSound tabs
      → selected (add_workspace_keep_selection tabs ws placement) ≡ selected tabs
  unfolding add_workspace_keep_selection
  add_workspace_keep_selection-selected tabs ws placement s =
      inserted_at tabs.workspaces (insert_at placement (length tabs.workspaces) tabs.selected_index)
        tabs.selected_index ws s.selection
        (insert_at-le placement (length tabs.workspaces) tabs.selected_index s.selection)

  -- In a sound tab manager a move between two indices in range succeeds, puts the workspace at the
  -- new index, and leaves the selected workspace selected.
  pub move_workspace-selected :
      (tabs : TabManager F) (from to : ℕ)
      → IsSound tabs
      → from < length tabs.workspaces
      → to < length tabs.workspaces
      → ((move_workspace tabs from to).1 ≡ true)
        × (get_elem? (move_workspace tabs from to).0.workspaces to ≡ get_elem? tabs.workspaces from)
        × (selected (move_workspace tabs from to).0 ≡ selected tabs)
  unfolding move_workspace
  move_workspace-selected tabs from to s hf ht =
      elim (Option-cases (get_elem? tabs.workspaces from)) [
        | inl e ↦ absurd (omega (arith, get_elem?-none-le tabs.workspaces from e))
        | inr (ws, e) ↦ elim (Bool-cases (from == to)) [
          | inl same ↦
              rw (e, inside, same, move_workspace) (refl, rw (← (==_iff from to).0 same) e, refl)
          | inr other ↦
              let le : to ≤ length (erase_idx tabs.workspaces from) =
                omega (arith, length-erase_idx tabs.workspaces from hf) in
              rw (e, inside, other, move_workspace)
                (
                  refl,
                  ground (arith, get_elem?-insert_idx (erase_idx tabs.workspaces from) to to ws le),
                  moved_at tabs.workspaces from to tabs.selected_index ws s.selection e ht other,
                )
        ]
      ]
    where
      inside : leb (length tabs.workspaces) to ≡ false
      inside = ground arith
