-- ===== src/Tabs/Blocks.antt =====
-- Moving a whole group: its members end up as one block (jmux/src/model/tab_manager.rs).
use jmux.Base.{
  Bool-cases, is_some_eq, ℕ, suc, ◌+◌, ◌≡◌, ◌≤◌, ap, refl, inl, inr, sym, ◌∙◌, arith, Bool, true,
  false, not, Option, none, some, List, [], ◌∷◌, ◌++◌, if◌then◌else◌, Uuid, length, get_elem?,
  position, any, is_nil, is_some, take, drop, retain, insert_idx, Option-cases, position-lt,
  get_elem?-position, ==_iff, ==_refl, length-insert_idx,
}
use mathlib.Core.List.{append_assoc}
use jmux.Base.Pieces.{
  any-append, any-take-drop, any-retain, any-position, any-get_elem?, take-drop-append,
  take-insert_idx, drop-insert_idx,
}
use jmux.Workspace.{Workspace}
use jmux.Tabs.{TabManager, has_id, in_group, selected_id, group, at, id_of}
use jmux.Tabs.Groups.{extract, insert_all, insert_position, move_group_before}
use jmux.Tabs.Cut.{Cut, insert_position-Cut}
use jmux.Tabs.Sound.{IsSound, InRange, reselected, get_elem?-none-le}

module _ {F : Type 0} where
  extract-eq-retain :
      (g : Uuid) (xs : List (Workspace F))
      → extract g xs ≡ (retain (in_group g) xs, retain (λ ws. not (in_group g ws)) xs)
  unfolding extract
  extract-eq-retain g [] = refl
  extract-eq-retain g (x ∷ xs) = ground (arith, extract-eq-retain g xs)

  insert_all-eq :
      (k : ℕ) (xs ms : List (Workspace F))
      → k ≤ length xs
      → insert_all xs k ms ≡ take k xs ++ (ms ++ drop k xs)
  unfolding insert_all
  insert_all-eq k xs [] h = sym (take-drop-append k xs)
  insert_all-eq k xs (m ∷ ms) h = rw (next k) (
      insert_all-eq (suc k) (insert_idx xs k m) ms (omega (arith, length-insert_idx xs k m))
      ∙ joined)
    where
      next : (n : ℕ) → n + 1 ≡ suc n
      next n = omega arith

      joined :
          take (suc k) (insert_idx xs k m) ++ (ms ++ drop (suc k) (insert_idx xs k m))
          ≡ take k xs ++ (m ∷ ms ++ drop k xs)
      joined =
          rw (take-insert_idx k xs m h)
            (rw (drop-insert_idx k xs m h) (append_assoc (take k xs) (m ∷ []) (ms ++ drop k xs)))

  insert_position-le :
      (xs : List (Workspace F)) (target : Option Uuid) → insert_position xs target ≤ length xs
  insert_position-le xs none = omega arith
  insert_position-le xs (some t) = elim (Option-cases (position (has_id t) xs)) [
    | inl e ↦ ground arith
    | inr (i, e) ↦ ground (arith, position-lt (has_id t) xs i e)
  ]

  -- A selection restored by identifier selects a workspace with that identifier again.
  restored :
      (xs ys : List (Workspace F)) (sel : Option ℕ)
      → InRange sel (length xs)
      → ((id : Uuid) → any (has_id id) ys ≡ any (has_id id) xs)
      → id_of (
          at ys (elim (id_of (at xs sel)) as (λ _. Option ℕ) [
            | none ↦ sel
            | some id ↦ position (has_id id) ys
          ]))
        ≡ id_of (at xs sel)
  restored xs ys none h same = refl
  restored xs ys (some i) h same = elim (Option-cases (get_elem? xs i)) [
    | inl e ↦ absurd (omega (arith, get_elem?-none-le xs i e))
    | inr (ws, e) ↦
        let there : is_some (position (has_id ws.id) ys) ≡ true =
          any-position (has_id ws.id) ys
          ∙ same ws.id
          ∙ any-get_elem? (has_id ws.id) xs i ws e (==_refl ws.id) in
        elim (Option-cases (position (has_id ws.id) ys)) [
          | inl none_found ↦ absurd (ground arith)
          | inr (j, found) ↦
              let (w, at_j, eq) = get_elem?-position (has_id ws.id) ys j found in
              rw e (rw found (rw at_j (ap some ((==_iff w.id ws.id).0 eq))))
        ]
  ]

  any-block :
      (p q : Workspace F → Bool) (k : ℕ) (xs : List (Workspace F))
      → let others = retain (λ ws. not (q ws)) xs in
        any p (take k others ++ (retain q xs ++ drop k others)) ≡ any p xs
  any-block p q k xs =
      let others = retain (λ ws. not (q ws)) xs in
      ground (
        arith,
        any-append p (take k others) (retain q xs ++ drop k others),
        any-append p (retain q xs) (drop k others),
        any-take-drop p k others,
        any-retain p q xs,
      )

  -- The state with the list `workspaces`, in which the selected workspace is looked up again.
  abbrev placed : TabManager F → List (Workspace F) → TabManager F
  placed tabs workspaces = record tabs {
    workspaces = workspaces;
    selected_index = elim (selected_id tabs) [
      | none ↦ tabs.selected_index
      | some id ↦ position (has_id id) workspaces
    ];
  }

  -- The others, with the group's members as one block before the target.
  abbrev block : TabManager F → Uuid → Option Uuid → List (Workspace F)
  block tabs g target =
      let others = retain (λ ws. not (in_group g ws)) tabs.workspaces in
      let k = insert_position others target in
      take k others ++ (retain (in_group g) tabs.workspaces ++ drop k others)

  -- What follows the extraction of the members.
  abbrev rejoined :
      TabManager F → Option Uuid → List (Workspace F) × List (Workspace F) → TabManager F × Bool
  rejoined tabs target p =
      if is_nil p.0
      then (record tabs { workspaces = p.1 }, false)
      else (placed tabs (insert_all p.1 (insert_position p.1 target) p.0), true)

  move_group_before-eq :
      (tabs : TabManager F) (g : Uuid) (target : Option Uuid)
      → is_some (group tabs g) ≡ true
      → is_nil (retain (in_group g) tabs.workspaces) ≡ false
      → move_group_before tabs g target ≡ (placed tabs (block tabs g target), true)
  unfolding move_group_before
  move_group_before-eq tabs g target exists some_member =
      let others = retain (λ ws. not (in_group g ws)) tabs.workspaces in
      rw exists (
        ap (rejoined tabs target) (extract-eq-retain g tabs.workspaces)
        ∙ rw some_member (
            ap (λ l. (placed tabs l, true))
              (insert_all-eq (insert_position others target) others
                (retain (in_group g) tabs.workspaces) (insert_position-le others target))))

  -- In a sound tab manager with the group and a member of it, `move_group_before` succeeds and puts
  -- all members, in their order, as one block between two parts of the other workspaces: the second
  -- part begins with the first workspace that has the target's identifier, or is empty where there
  -- is no target or no such workspace. The selected workspace has the same identifier as before.
  pub move_group_before_lem :
      (tabs : TabManager F) (group_id : Uuid) (target : Option Uuid)
      → IsSound tabs
      → is_some (group tabs group_id) ≡ true
      → is_nil (retain (λ (ws : Workspace F). is_some_eq ws.group_id group_id) tabs.workspaces)
        ≡ false
      → ((move_group_before tabs group_id target).1 ≡ true)
        × ((before : List (Workspace F)) × (after : List (Workspace F)) × (retain
                (λ (ws : Workspace F). not (is_some_eq ws.group_id group_id))
                tabs.workspaces
              ≡ before ++ after)
            × Cut before after target
            × ((move_group_before tabs group_id target).0.workspaces
                ≡ before
                  ++ (retain (λ (ws : Workspace F). is_some_eq ws.group_id group_id) tabs.workspaces
                      ++ after)))
        × (selected_id (move_group_before tabs group_id target).0 ≡ selected_id tabs)
  move_group_before_lem tabs g target s exists some_member =
      let others = retain (λ ws. not (in_group g ws)) tabs.workspaces in
      let k = insert_position others target in
      rw (move_group_before-eq tabs g target exists some_member) (
        refl,
        (
          take k others,
          drop k others,
          sym (take-drop-append k others),
          insert_position-Cut others target,
          refl,
        ),
        restored tabs.workspaces (block tabs g target) tabs.selected_index s.selection
            (λ id. any-block (has_id id) (in_group g) _ tabs.workspaces),
      )

  retain-none :
      (p : Workspace F → Bool) (xs : List (Workspace F))
      → is_nil (retain p xs) ≡ true
      → retain (λ ws. not (p ws)) xs ≡ xs
  retain-none p [] h = refl
  retain-none p (x ∷ xs) h = elim (Bool-cases (p x)) [
    | inl in_p ↦ absurd (ground arith)
    | inr out ↦ rw out (ap (◌∷◌ x) (retain-none p xs (ground arith)))
  ]

  placed-IsSound :
      (tabs : TabManager F) (workspaces : List (Workspace F))
      → IsSound tabs
      → IsSound (placed tabs workspaces)
  placed-IsSound tabs workspaces s =
      reselected tabs workspaces _ s (found tabs.selected_index s.selection)
    where
      looked_up : (id : Uuid) → InRange (position (has_id id) workspaces) (length workspaces)
      looked_up id = elim (Option-cases (position (has_id id) workspaces)) [
        | inl e ↦ rw e tt
        | inr (i, e) ↦ rw e (position-lt (has_id id) workspaces i e)
      ]

      found :
          (sel : Option ℕ)
          → InRange sel (length tabs.workspaces)
          → InRange
              (elim (id_of (at tabs.workspaces sel)) as (λ _. Option ℕ) [
                | none ↦ sel
                | some id ↦ position (has_id id) workspaces
              ])
              (length workspaces)
      found none h = tt
      found (some i) h = elim (Option-cases (get_elem? tabs.workspaces i)) [
        | inl e ↦ absurd (omega (arith, get_elem?-none-le tabs.workspaces i e))
        | inr (ws, e) ↦ rw e (looked_up ws.id)
      ]

  pub move_group_before-IsSound :
      (tabs : TabManager F) (g : Uuid) (target : Option Uuid)
      → IsSound tabs
      → IsSound (move_group_before tabs g target).0
  unfolding move_group_before
  move_group_before-IsSound tabs g target s = elim (Bool-cases (is_some (group tabs g))) [
    | inl exists ↦ elim (Bool-cases (is_nil (retain (in_group g) tabs.workspaces))) [
      | inl nobody ↦ rw exists (
          rw (extract-eq-retain g tabs.workspaces)
            (rw nobody (rw (retain-none (in_group g) tabs.workspaces nobody) s)))
      | inr some_member ↦
          rw (move_group_before-eq tabs g target exists some_member)
            (placed-IsSound tabs (block tabs g target) s)
    ]
    | inr missing ↦ rw missing s
  ]
