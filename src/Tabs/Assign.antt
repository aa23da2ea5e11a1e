-- ===== src/Tabs/Assign.antt =====
-- Assigning a workspace to a group (jmux/src/model/tab_manager.rs).
use jmux.Base.{
  ℕ, zero, suc, ◌≡◌, ap, refl, inl, inr, sym, ◌∙◌, arith, true, false, ◌&&◌, Option, none, some,
  List, [], ◌∷◌, Uuid, length, get_elem?, position, is_some, ltb, leb, Option-cases, Bool-cases,
}
use mathlib.Core.Path.{subst}
use jmux.Workspace.{Workspace}
use jmux.Tabs.{TabManager, has_id, at, id_of, selected, selected_id}
use jmux.Tabs.Change.{move_workspace}
use jmux.Tabs.Groups.{update_at, last_member, join_members, group_exists, assign_to_group}
use jmux.Tabs.Kept.{move_workspace-IsSound}
use jmux.Tabs.Follow.{move_workspace-selected}
use jmux.Tabs.Sound.{IsSound, InRange, reselected, get_elem?-some-lt}

module _ {F : Type 0} where
  -- A move of any kind leaves the selected workspace selected.
  selected-move_workspace :
      (tabs : TabManager F) (from to : ℕ)
      → IsSound tabs
      → selected (move_workspace tabs from to).0 ≡ selected tabs
  unfolding move_workspace
  selected-move_workspace tabs from to s =
      elim (Bool-cases (ltb from (length tabs.workspaces) && ltb to (length tabs.workspaces))) [
        | inl inside ↦ (move_workspace-selected tabs from to s (ground arith) (ground arith)).2
        | inr outside ↦ elim (Option-cases (get_elem? tabs.workspaces from)) [
          | inl e ↦ rw (e, move_workspace) refl
          | inr (ws, e) ↦ rw (e, move_workspace) (rw (too_far ws e outside) refl)
        ]
      ]
    where
      too_far :
          (ws : Workspace F)
          → get_elem? tabs.workspaces from ≡ some ws
          → ltb from (length tabs.workspaces) && ltb to (length tabs.workspaces) ≡ false
          → leb (length tabs.workspaces) to ≡ true
      too_far ws e h = ground (arith, get_elem?-some-lt tabs.workspaces from ws e)

  selected-join_members :
      (tabs : TabManager F) (idx : ℕ) (group_id : Option Uuid)
      → IsSound tabs
      → selected (join_members tabs idx group_id) ≡ selected tabs
  unfolding join_members
  selected-join_members tabs idx none s = refl
  selected-join_members tabs idx (some g) s =
      elim (Option-cases (last_member tabs.workspaces idx g)) [
        | inl e ↦ rw (e, join_members) refl
        | inr (last, e) ↦ rw (e, join_members) (selected-move_workspace tabs idx _ s)
      ]

  length-update_at :
      (xs : List (Workspace F)) (i : ℕ) (f : Workspace F → Workspace F)
      → length (update_at xs i f) ≡ length xs
  length-update_at [] i f = refl
  length-update_at (x ∷ xs) zero f = refl
  length-update_at (x ∷ xs) (suc i) f = ap suc (length-update_at xs i f)

  id_of-update_at :
      (xs : List (Workspace F)) (i j : ℕ) (f : Workspace F → Workspace F)
      → ((ws : Workspace F) → (f ws).id ≡ ws.id)
      → id_of (get_elem? (update_at xs i f) j) ≡ id_of (get_elem? xs j)
  id_of-update_at [] i j f same = refl
  id_of-update_at (x ∷ xs) zero zero f same = ap some (same x)
  id_of-update_at (x ∷ xs) zero (suc j) f same = refl
  id_of-update_at (x ∷ xs) (suc i) zero f same = refl
  id_of-update_at (x ∷ xs) (suc i) (suc j) f same = id_of-update_at xs i j f same

  selected_id-update_at :
      (xs : List (Workspace F)) (i : ℕ) (sel : Option ℕ) (f : Workspace F → Workspace F)
      → ((ws : Workspace F) → (f ws).id ≡ ws.id)
      → id_of (at (update_at xs i f) sel) ≡ id_of (at xs sel)
  selected_id-update_at xs i none f same = refl
  selected_id-update_at xs i (some j) f same = id_of-update_at xs i j f same

  -- The state with the group written into the workspace at `idx`.
  abbrev assigned : TabManager F → ℕ → Option Uuid → TabManager F
  assigned tabs idx group_id = record tabs {
    workspaces = update_at tabs.workspaces idx (λ ws. record ws { group_id = group_id });
  }

  assigned-IsSound :
      (tabs : TabManager F) (idx : ℕ) (group_id : Option Uuid)
      → IsSound tabs
      → IsSound (assigned tabs idx group_id)
  assigned-IsSound tabs idx group_id s =
      reselected tabs (assigned tabs idx group_id).workspaces tabs.selected_index s (
        subst (InRange tabs.selected_index) (sym (length-update_at tabs.workspaces idx _))
          s.selection)

  join_members-IsSound :
      (tabs : TabManager F) (idx : ℕ) (group_id : Option Uuid)
      → IsSound tabs
      → IsSound (join_members tabs idx group_id)
  unfolding join_members
  join_members-IsSound tabs idx none s = s
  join_members-IsSound tabs idx (some g) s =
      elim (Option-cases (last_member tabs.workspaces idx g)) [
        | inl e ↦ rw (e, join_members) s
        | inr (last, e) ↦ rw (e, join_members) (move_workspace-IsSound tabs idx _ s)
      ]

  pub assign_to_group-IsSound :
      (tabs : TabManager F) (workspace_id : Uuid) (group_id : Option Uuid)
      → IsSound tabs
      → IsSound (assign_to_group tabs workspace_id group_id).0
  unfolding assign_to_group
  assign_to_group-IsSound tabs workspace_id group_id s =
      elim (Bool-cases (group_exists tabs group_id)) [
        | inl exists ↦ elim (Option-cases (position (has_id workspace_id) tabs.workspaces)) [
          | inl e ↦ rw exists (rw e s)
          | inr (idx, e) ↦
              rw exists
                (rw e (join_members-IsSound _ idx group_id (assigned-IsSound tabs idx group_id s)))
        ]
        | inr missing ↦ rw missing s
      ]

  -- In a sound tab manager `assign_to_group` succeeds exactly if a workspace has the identifier and
  -- the group exists or none is given; it changes nothing where it fails, and the selected
  -- workspace has the same identifier as before.
  pub assign_to_group_lem :
      (tabs : TabManager F) (workspace_id : Uuid) (group_id : Option Uuid)
      → IsSound tabs
      → ((assign_to_group tabs workspace_id group_id).1 ≡ (
          group_exists tabs group_id && is_some (position (has_id workspace_id) tabs.workspaces)))
        × (selected_id (assign_to_group tabs workspace_id group_id).0 ≡ selected_id tabs)
        × ((assign_to_group tabs workspace_id group_id).1 ≡ false
            → (assign_to_group tabs workspace_id group_id).0 ≡ tabs)
  unfolding assign_to_group
  assign_to_group_lem tabs workspace_id group_id s =
      elim (Bool-cases (group_exists tabs group_id)) [
        | inl exists ↦ elim (Option-cases (position (has_id workspace_id) tabs.workspaces)) [
          | inl e ↦ rw exists (rw e (refl, refl, λ h. refl))
          | inr (idx, e) ↦ rw exists (rw e (refl, kept idx, λ h. cc))
        ]
        | inr missing ↦ rw missing (refl, refl, λ h. refl)
      ]
    where
      kept :
          (idx : ℕ)
          → selected_id (join_members (assigned tabs idx group_id) idx group_id) ≡ selected_id tabs
      kept idx =
          ap id_of (
            selected-join_members (assigned tabs idx group_id) idx group_id
              (assigned-IsSound tabs idx group_id s))
          ∙ selected_id-update_at tabs.workspaces idx tabs.selected_index _ (λ ws. refl)
