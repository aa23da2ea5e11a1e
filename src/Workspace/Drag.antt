-- ===== src/Workspace/Drag.antt =====
-- Dragging, focusing and reopening panels (jmux/src/model/workspace.rs).
use jmux.Base.{
  length-pop, popped_length, ap, ◌==◌, ◌≡◌, ◌≢◌, ◌≤◌, ◌<◌, refl, inl, inr, true, false, ◌&&◌, not,
  none, some, List, [], ◌∷◌, arith, Uuid, count, Bool-cases, Option-cases, length, head?, is_nil,
  is_some, pop, find,
}
use jmux.Base.Map.{Map, contains_key, insert, contains_key-insert}
use jmux.Layout.{SplitOrientation, Direction, all_panel_ids, single_pane}
use jmux.Layout.Edit
use jmux.Layout.Moves.{
  occurs-select_panel, select_panel-found, occurs-add_panel_to_pane, add_panel_to_pane-found,
}
use jmux.Layout.Valid.{select_panel-full}
use jmux.Panel.{Panel}
use jmux.Workspace.{Workspace}
use jmux.Workspace.Panels.{closed_panels_cap, reopen_last_closed_panel}
use jmux.Workspace.Rearrange.{
  split_panel_into_pane, drag_to_split, drag_target, drag_orientation, focus_panel,
}
use jmux.Workspace.Sound.{IsSound, Agree, full_of_panels}
use jmux.Workspace.Place.{Agree-insert}
use jmux.Workspace.Move.{placed-IsSound, placed_flag, add_panel_to_pane-full, has_not_nil}

find-count :
    (p : Uuid) (ids : List Uuid) (t : Uuid)
    → find (λ id. not (id == p)) ids ≡ some t
    → (0 < count t ids) × (t ≢ p)
find-count p [] t h = cc
find-count p (x ∷ xs) t h = ground (arith, find-count p xs t)

nil_of_no_count : (ids : List Uuid) → ((x : Uuid) → count x ids ≡ 0) → ids ≡ []
nil_of_no_count [] h = refl
nil_of_no_count (x ∷ xs) h = absurd (ground (arith, h x))

module _ {F : Type 0} where
  -- In a sound workspace `split_panel_into_pane` succeeds exactly if the panels are two different
  -- ones of the workspace. It keeps the workspace sound, and changes nothing where it fails.
  pub split_panel_into_pane_lem :
      (half : F) (ws : Workspace F) (source target : Uuid) (o : SplitOrientation) (d : Direction)
      → IsSound ws
      → IsSound (split_panel_into_pane half ws source target o d).0
        × ((split_panel_into_pane half ws source target o d).1 ≡ (
            not (source == target)
            && contains_key ws.panels source
            && contains_key ws.panels target))
        × ((split_panel_into_pane half ws source target o d).1 ≡ false
            → (split_panel_into_pane half ws source target o d).0 ≡ ws)
  unfolding split_panel_into_pane
  split_panel_into_pane_lem half ws source target o d s = elim (Bool-cases (source == target)) [
    | inl same ↦ rw (same, split_panel_into_pane) (s, refl, λ _. refl)
    | inr other ↦ elim (Bool-cases (contains_key ws.panels source)) [
      | inr no_source ↦ rw (other, no_source, split_panel_into_pane) (s, refl, λ _. refl)
      | inl has_source ↦ elim (Bool-cases (contains_key ws.panels target)) [
        | inr no_target ↦
            rw (other, has_source, no_target, split_panel_into_pane) (s, refl, λ _. refl)
        | inl has_target ↦
            rw
              (
                other,
                has_source,
                has_target,
                placed_flag ws s source target has_source has_target other half o d,
                split_panel_into_pane,
              )
              (
                placed-IsSound ws s source target has_source has_target other half o d,
                refl,
                λ h. cc,
              )
      ]
    ]
  ]

  -- The target of a drag is another panel of the workspace.
  drag_target-held :
      (ws : Workspace F) (p t : Uuid)
      → IsSound ws
      → drag_target ws p ≡ some t
      → ((p == t) ≡ false) × (contains_key ws.panels t ≡ true)
  unfolding drag_target
  drag_target-held ws p t s h =
      ground (arith, find-count p (all_panel_ids ws.layout) t, s.agree t, s.focus)

  -- Dragging a panel of a sound workspace keeps it sound. The drag succeeds exactly if the
  -- workspace has the panel and there is a panel to split, and changes nothing otherwise; where it
  -- succeeds, the layout is that of a removal and a split of the target's pane, so the fallback to
  -- a tab is never taken.
  pub drag_to_split_lem :
      (half : F) (ws : Workspace F) (p : Uuid) (d : Direction)
      → IsSound ws
      → IsSound (drag_to_split half ws p d).0
        × ((drag_to_split half ws p d).1 ≡ (contains_key ws.panels p && is_some (drag_target ws p)))
        × ((drag_to_split half ws p d).1 ≡ false → (drag_to_split half ws p d).0 ≡ ws)
        × ((t : Uuid)
            → contains_key ws.panels p ≡ true
            → drag_target ws p ≡ some t
            → (drag_to_split half ws p d).0.layout
              ≡ (Edit.split_pane_with_panel half
                  (Edit.remove_panel ws.layout p).0
                  t
                  p
                  (drag_orientation d)
                  d).0)
  unfolding drag_to_split
  drag_to_split_lem half ws p d s = elim (Bool-cases (contains_key ws.panels p)) [
    | inr absent ↦ rw (absent, drag_to_split) (s, refl, λ _. refl, λ t h. cc)
    | inl here ↦ elim (Option-cases (drag_target ws p)) [
      | inl e ↦ rw (here, e, drag_to_split) (s, refl, λ _. refl, λ t h k. cc)
      | inr (t, e) ↦
          let (other, held) = drag_target-held ws p t s e in
          rw
            (
              here,
              e,
              placed_flag ws s p t here held other half (drag_orientation d) d,
              drag_to_split,
            )
            (
              placed-IsSound ws s p t here held other half (drag_orientation d) d,
              refl,
              λ h. cc,
              λ u h k. cc,
            )
    ]
  ]

  -- In a sound workspace `focus_panel` succeeds exactly if the workspace has the panel, and then
  -- the focus is on it. It keeps the workspace sound, and changes nothing where it fails.
  focus_panel_lem :
      (ws : Workspace F) (p : Uuid)
      → IsSound ws
      → IsSound (focus_panel ws p).0
        × ((focus_panel ws p).1 ≡ contains_key ws.panels p)
        × ((focus_panel ws p).1 ≡ true → (focus_panel ws p).0.focused_panel_id ≡ some p)
        × ((focus_panel ws p).1 ≡ false → (focus_panel ws p).0 ≡ ws)
  unfolding focus_panel
  focus_panel_lem ws p s = elim (Bool-cases (contains_key ws.panels p)) [
    | inr absent ↦ rw (absent, focus_panel) (s, refl, λ h. cc, λ _. refl)
    | inl here ↦
        let selected : (Edit.select_panel ws.layout p).1 ≡ true =
          ground (arith, select_panel-found ws.layout p, s.agree p) in
        rw (here, selected, focus_panel)
          (
            record {
              agree = λ x. ground (arith, s.agree x, occurs-select_panel ws.layout p x);
              shape = inl (
                  select_panel-full ws.layout p
                    (full_of_panels ws s (has_not_nil ws.panels p here)));
              focus = here;
              capped = s.capped;
            },
            refl,
            λ _. refl,
            λ h. cc,
          )
  ]

  no_key_of_nil : (m : Map (Panel F)) (k : Uuid) → is_nil m ≡ true → contains_key m k ≡ false
  no_key_of_nil [] k h = refl
  no_key_of_nil (e ∷ m) k h = cc

  -- Without a focus a sound workspace has no panel, and its layout none.
  unfocused_head :
      (ws : Workspace F)
      → IsSound ws
      → ws.focused_panel_id ≡ none
      → head? (all_panel_ids ws.layout) ≡ none
  unfocused_head ws s e = ap head? (
      nil_of_no_count (all_panel_ids ws.layout)
        (λ x. ground (arith, s.agree x, no_key_of_nil ws.panels x, s.focus)))

  Agree-single_pane :
      (panels : Map (Panel F)) (new : Uuid) (panel : Panel F)
      → is_nil panels ≡ true
      → Agree (single_pane new) (insert panels new panel)
  unfolding single_pane all_panel_ids
  Agree-single_pane panels new panel h x =
      ground (arith, contains_key-insert panels new x panel, no_key_of_nil panels x)

  -- Reopening the last closed panel, under an identifier that is not in use, keeps a workspace
  -- sound.
  reopen_last_closed_panel-IsSound :
      (ws : Workspace F) (new : Uuid)
      → IsSound ws
      → contains_key ws.panels new ≡ false
      → IsSound (reopen_last_closed_panel ws new).0
  unfolding reopen_last_closed_panel
  reopen_last_closed_panel-IsSound ws new s fresh = elim (Option-cases (pop ws.closed_panels)) [
    | inl e ↦ rw (e, reopen_last_closed_panel) s
    | inr ((closed, rest), e) ↦
        let panel = record closed { id = new; pending_scrollback = none; tty_name = none } in
        let fewer : length rest ≤ closed_panels_cap =
          omega (arith, s.capped, length-pop ws.closed_panels, ap popped_length e) in
        elim (Option-cases ws.focused_panel_id) [
          | inl unfocused ↦
              rw (e, unfocused, unfocused_head ws s unfocused, reopen_last_closed_panel)
                (record {
                  agree = Agree-single_pane ws.panels new panel (ground (arith, s.focus));
                  shape = inl (unfold single_pane in ground arith);
                  focus = ground (arith, contains_key-insert ws.panels new new panel);
                  capped = fewer;
                })
          | inr (f, focused) ↦
              rw (e, focused, reopen_last_closed_panel)
                (record {
                  agree =
                      Agree-insert ws.layout (Edit.add_panel_to_pane ws.layout f new).0 ws.panels
                        new panel s.agree fresh
                        (λ x. occurs-add_panel_to_pane ws.layout f new x (
                          ground
                            (arith, add_panel_to_pane-found ws.layout f new, s.agree f, s.focus)));
                  shape = inl (
                      add_panel_to_pane-full ws.layout f new
                        (full_of_panels ws s (has_not_nil ws.panels f (ground (arith, s.focus)))));
                  focus = ground (arith, contains_key-insert ws.panels new new panel);
                  capped = fewer;
                })
        ]
  ]
