-- ===== src/Tabs/Kept.antt =====
-- The operations on the list of workspaces keep the tab manager sound
-- (jmux/src/model/tab_manager.rs).
use jmux.Base.{
  ℕ, ◌==◌, ◌≡◌, ◌≤◌, ◌<◌, ap, inl, inr, arith, List, [], ◌∷◌, ◌++◌, Uuid, length, get_elem?,
  position, leb, is_nil, is_some, erase_idx, insert_idx, Option-cases, Bool-cases, position-lt,
  length-append, length-erase_idx, length-insert_idx, length-keep_last, pop, length-pop,
  popped_length, keep_last,
}
use jmux.Workspace.{Workspace}
use jmux.Workspace.Panels
use jmux.Tabs.{TabManager, ClosedEntry, Placement, has_id, closed_stack_cap, workspace}
use jmux.Tabs.Change.{
  add_workspace, add_workspace_keep_selection, insert_at, selection_after_move, record_closed,
  without, remove, remove_by_id, move_workspace, reopen, reopen_last_closed, reopen_closed,
  set_closed_entries,
}
use jmux.Tabs.Sound.{
  IsSound, reselected, shifted-InRange, after_remove-InRange, after_move-InRange, get_elem?-some-lt,
}

module _ {F : Type 0} where
  pub add_workspace-IsSound :
      (tabs : TabManager F) (ws : Workspace F) → IsSound tabs → IsSound (add_workspace tabs ws)
  unfolding add_workspace
  add_workspace-IsSound tabs ws s =
      reselected tabs _ _ s (omega (arith, length-append tabs.workspaces (ws ∷ [])))

  pub add_workspace_keep_selection-IsSound :
      (tabs : TabManager F) (ws : Workspace F) (p : Placement)
      → IsSound tabs
      → IsSound (add_workspace_keep_selection tabs ws p)
  unfolding add_workspace_keep_selection
  add_workspace_keep_selection-IsSound tabs ws p s =
      let n = length tabs.workspaces in
      reselected tabs _ _ s (
        rw (length-insert_idx tabs.workspaces (insert_at p n tabs.selected_index) ws)
          (shifted-InRange n tabs.selected_index (insert_at p n tabs.selected_index) s.selection))

  record_closed-le :
      (stack : List (ClosedEntry F)) (ws : Workspace F) (now : ℕ)
      → length stack ≤ closed_stack_cap
      → length (record_closed stack ws now) ≤ closed_stack_cap
  unfolding record_closed
  record_closed-le stack ws now h = elim (Bool-cases (is_nil ws.panels)) [
    | inl e ↦ rw (e, record_closed) h
    | inr e ↦
        let entry : ClosedEntry F = record {
          workspace = ws;
          closed_at = now;
          title = Panels.display_title ws;
        } in
        rw (e, record_closed) (length-keep_last closed_stack_cap (stack ++ entry ∷ []))
  ]

  without-IsSound :
      (tabs : TabManager F) (i : ℕ) (ws : Workspace F) (now : ℕ)
      → i < length tabs.workspaces
      → IsSound tabs
      → IsSound (without tabs i ws now)
  unfolding without
  without-IsSound tabs i ws now h s = record {
    selection =
        after_remove-InRange (length (erase_idx tabs.workspaces i)) i tabs.selected_index
          (rw (length-erase_idx tabs.workspaces i h) s.selection);
    placed = s.placed;
    history = s.history;
    stack = record_closed-le tabs.closed_stack ws now s.stack;
  }

  pub remove-IsSound :
      (tabs : TabManager F) (i now : ℕ) → IsSound tabs → IsSound (remove tabs i now).0
  unfolding remove
  remove-IsSound tabs i now s = elim (Option-cases (get_elem? tabs.workspaces i)) [
    | inl e ↦ rw (e, remove) s
    | inr (ws, e) ↦
        rw (e, remove) (without-IsSound tabs i ws now (get_elem?-some-lt tabs.workspaces i ws e) s)
  ]

  pub remove_by_id-IsSound :
      (tabs : TabManager F) (id : Uuid) (now : ℕ)
      → IsSound tabs
      → IsSound (remove_by_id tabs id now).0
  unfolding remove_by_id
  remove_by_id-IsSound tabs id now s = elim (Option-cases (position (has_id id) tabs.workspaces)) [
    | inl e ↦ rw (e, remove_by_id) s
    | inr (i, e) ↦ rw (e, remove_by_id) (remove-IsSound tabs i now s)
  ]

  moved-length :
      (xs : List (Workspace F)) (from to : ℕ) (ws : Workspace F)
      → from < length xs
      → length (insert_idx (erase_idx xs from) to ws) ≡ length xs
  moved-length xs from to ws h =
      omega (arith, length-insert_idx (erase_idx xs from) to ws, length-erase_idx xs from h)

  pub move_workspace-IsSound :
      (tabs : TabManager F) (from to : ℕ) → IsSound tabs → IsSound (move_workspace tabs from to).0
  unfolding move_workspace
  move_workspace-IsSound tabs from to s = elim (Option-cases (get_elem? tabs.workspaces from)) [
    | inl e ↦ rw (e, move_workspace) s
    | inr (ws, e) ↦ elim (Bool-cases (leb (length tabs.workspaces) to)) [
      | inl past ↦ rw (e, past, move_workspace) s
      | inr inside ↦ elim (Bool-cases (from == to)) [
        | inl same ↦ rw (e, inside, same, move_workspace) s
        | inr other ↦
            let lt = get_elem?-some-lt tabs.workspaces from ws e in
            rw (e, inside, other, move_workspace)
              (reselected tabs (insert_idx (erase_idx tabs.workspaces from) to ws)
                (selection_after_move from to tabs.selected_index) s
                (rw (moved-length tabs.workspaces from to ws lt) (
                  after_move-InRange (length tabs.workspaces) from to tabs.selected_index lt
                    (ground arith) s.selection)))
      ]
    ]
  ]

  restacked :
      (tabs : TabManager F) (stack : List (ClosedEntry F))
      → length stack ≤ closed_stack_cap
      → IsSound tabs
      → IsSound (record tabs { closed_stack = stack })
  restacked tabs stack h s = record {
    selection = s.selection;
    placed = s.placed;
    history = s.history;
    stack = h;
  }

  reopen-IsSound :
      (tabs : TabManager F) (ws : Workspace F) → IsSound tabs → IsSound (reopen tabs ws)
  unfolding reopen
  reopen-IsSound tabs ws s = elim (Bool-cases (is_some (workspace tabs ws.id))) [
    | inl there ↦ rw (there, reopen) s
    | inr gone ↦ rw (gone, reopen) (add_workspace-IsSound tabs ws s)
  ]

  pub reopen_last_closed-IsSound :
      (tabs : TabManager F) → IsSound tabs → IsSound (reopen_last_closed tabs).0
  unfolding reopen_last_closed
  reopen_last_closed-IsSound tabs s = elim (Option-cases (pop tabs.closed_stack)) [
    | inl e ↦ rw (e, reopen_last_closed) s
    | inr ((entry, rest), e) ↦
        rw (e, reopen_last_closed)
          (reopen-IsSound (record tabs { closed_stack = rest }) entry.workspace
            (restacked tabs rest
              (omega (arith, s.stack, length-pop tabs.closed_stack, ap popped_length e)) s))
  ]

  pub set_closed_entries-IsSound :
      (tabs : TabManager F) (entries : List (ClosedEntry F))
      → IsSound tabs
      → IsSound (set_closed_entries tabs entries)
  unfolding set_closed_entries
  set_closed_entries-IsSound tabs entries s =
      restacked tabs (keep_last closed_stack_cap entries)
        (length-keep_last closed_stack_cap entries) s

  pub reopen_closed-IsSound :
      (tabs : TabManager F) (id : Uuid) → IsSound tabs → IsSound (reopen_closed tabs id).0
  unfolding reopen_closed
  reopen_closed-IsSound tabs id s =
      elim (Option-cases
        (position (λ (e : ClosedEntry F). e.workspace.id == id) tabs.closed_stack)) [
          | inl e ↦ rw (e, reopen_closed) s
          | inr (i, e) ↦ elim (Option-cases (get_elem? tabs.closed_stack i)) [
            | inl gone ↦ rw (e, gone, reopen_closed) s
            | inr (entry, found) ↦
                let lt =
                  position-lt (λ (e : ClosedEntry F). e.workspace.id == id) tabs.closed_stack i e in
                rw (e, found, reopen_closed)
                  (reopen-IsSound (record tabs { closed_stack = erase_idx tabs.closed_stack i })
                    entry.workspace
                    (restacked tabs (erase_idx tabs.closed_stack i)
                      (omega (arith, s.stack, length-erase_idx tabs.closed_stack i lt)) s))
          ]
        ]
