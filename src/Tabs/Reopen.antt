-- ===== src/Tabs/Reopen.antt =====
-- Closing a workspace and reopening it (jmux/src/model/tab_manager.rs).
use jmux.Base.{
  ℕ, zero, suc, ◌+◌, ◌-◌, ◌≡◌, ◌≤◌, refl, inl, inr, arith, false, none, some, List, [], ◌∷◌, ◌++◌,
  length, get_elem?, ltb, is_nil, find, drop, erase_idx, Bool-cases, length-append, pop,
  push_capped,
}
use jmux.Workspace.{Workspace}
use jmux.Workspace.Panels
use jmux.Tabs.{TabManager, ClosedEntry, has_id, selected, workspace}
use jmux.Tabs.Change.{record_closed, without, remove, reopen, reopen_last_closed, add_workspace}

module _ {ℓ} {A : Type ℓ} where
  pop-append : (xs : List A) (y : A) → pop (xs ++ y ∷ []) ≡ some (y, xs)
  pop-append [] y = refl
  pop-append (x ∷ xs) y = rw (pop-append xs y)

  drop-append : (k : ℕ) (xs ys : List A) → k ≤ length xs → drop k (xs ++ ys) ≡ drop k xs ++ ys
  drop-append zero xs ys h = refl
  drop-append (suc k) [] ys h = elim h [ ]
  drop-append (suc k) (x ∷ xs) ys h = drop-append k xs ys (omega arith)

  -- What was pushed under a limit is popped.
  pop-push_capped :
      (limit : ℕ) (xs : List A) (y : A)
      → (rest : List A) × (pop (push_capped (suc limit) xs y) ≡ some (y, rest))
  pop-push_capped limit xs y =
      let pushed = xs ++ y ∷ [] in
      let k = length pushed - suc limit in
      elim (Bool-cases (ltb (suc limit) (length pushed))) [
        | inl long ↦ (
          drop k xs,
          rw long (
              rw (drop-append k xs (y ∷ []) (omega (arith, length-append xs (y ∷ []))))
                (pop-append (drop k xs) y)),
        )
        | inr short ↦ (xs, rw short (pop-append xs y))
      ]

  get_elem?-append_last :
      (xs : List A) (y : A) → get_elem? (xs ++ y ∷ []) (length (xs ++ y ∷ []) - 1) ≡ some y
  get_elem?-append_last xs y = rw (length-append xs (y ∷ [])) (rw last_index (at_end xs))
    where
      last_index : length xs + 1 - 1 ≡ length xs
      last_index = omega arith

      at_end : (zs : List A) → get_elem? (zs ++ y ∷ []) (length zs) ≡ some y
      at_end [] = refl
      at_end (z ∷ zs) = at_end zs

module _ {F : Type 0} where
  record_closed-pop :
      (stack : List (ClosedEntry F)) (ws : Workspace F) (now : ℕ)
      → is_nil ws.panels ≡ false
      → (rest : List (ClosedEntry F)) × (pop (record_closed stack ws now)
          ≡ some
              (record { workspace = ws; closed_at = now; title = Panels.display_title ws }, rest))
  unfolding record_closed
  record_closed-pop stack ws now h =
      let (rest, e) =
        pop-push_capped 9 stack
          (record { workspace = ws; closed_at = now; title = Panels.display_title ws }) in
      (rest, rw h e)

  remove_found :
      (tabs : TabManager F) (index now : ℕ) (ws : Workspace F)
      → get_elem? tabs.workspaces index ≡ some ws
      → remove tabs index now ≡ (without tabs index ws now, some ws)
  unfolding remove
  remove_found tabs index now ws e = rw (remove, e)

  reopen_popped :
      (tabs : TabManager F) (entry : ClosedEntry F) (rest : List (ClosedEntry F))
      → pop tabs.closed_stack ≡ some (entry, rest)
      → reopen_last_closed tabs
        ≡ (reopen (record tabs { closed_stack = rest }) entry.workspace, some entry.workspace.id)
  unfolding reopen_last_closed
  reopen_popped tabs entry rest e = rw (reopen_last_closed, e)

  reopen_absent :
      (tabs : TabManager F) (ws : Workspace F)
      → workspace tabs ws.id ≡ none
      → reopen tabs ws ≡ add_workspace tabs ws
  unfolding reopen
  reopen_absent tabs ws e = rw (reopen, e)

  -- If a workspace that has panels is removed, and no other has its identifier, reopening the last
  -- closed one brings the same workspace back, at the end of the list and selected.
  pub reopen_last_closed-remove :
      (tabs : TabManager F) (index now : ℕ) (ws : Workspace F)
      → get_elem? tabs.workspaces index ≡ some ws
      → is_nil ws.panels ≡ false
      → find (has_id ws.id) (erase_idx tabs.workspaces index) ≡ none
      → ((reopen_last_closed (remove tabs index now).0).1 ≡ some ws.id)
        × ((reopen_last_closed (remove tabs index now).0).0.workspaces
            ≡ erase_idx tabs.workspaces index ++ ws ∷ [])
        × (selected (reopen_last_closed (remove tabs index now).0).0 ≡ some ws)
  unfolding without add_workspace
  reopen_last_closed-remove tabs index now ws e has once =
      let closed = without tabs index ws now in
      let (rest, popped) = record_closed-pop tabs.closed_stack ws now has in
      let entry : ClosedEntry F = record {
        workspace = ws;
        closed_at = now;
        title = Panels.display_title ws;
      } in
      rw (remove_found tabs index now ws e) (
        rw (reopen_popped closed entry rest popped) (
          rw (reopen_absent (record closed { closed_stack = rest }) ws once)
            (refl, refl, get_elem?-append_last (erase_idx tabs.workspaces index) ws)))
