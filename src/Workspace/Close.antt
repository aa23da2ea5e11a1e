-- ===== src/Workspace/Close.antt =====
-- Closing and detaching panels keeps a workspace sound (jmux/src/model/workspace.rs).
use jmux.Base.{
  ◌≡◌, refl, inl, inr, true, false, Option, none, some, [], ◌∷◌, ◌++◌, arith, if◌then◌else◌, Uuid,
  Option-cases, head?, is_some_eq, length-keep_last,
}
use jmux.Base.Map.{Map, get, remove, contains_key, is_some-get, contains_key-remove}
use jmux.Layout.{LayoutNode, all_panel_ids}
use jmux.Layout.Edit
use jmux.Layout.Valid.{remove_panel-IsValid}
use jmux.Panel.{Panel}
use jmux.Workspace.{Workspace}
use jmux.Workspace.Panels.{
  closed_panels_cap, focus_after_close, close_panel, remove_panel, detached, detach_panel,
}
use jmux.Workspace.Sound.{IsSound, focus_held, Agree, Agree-remove, head?-focus_held}

module _ {F : Type 0} where
  focus_after_close-held :
      (ws : Workspace F) (p : Uuid) (panels : Map (Panel F)) (layout : LayoutNode F)
      → Agree layout panels
      → focus_held (focus_after_close ws p panels layout) panels ≡ true
  unfolding focus_after_close
  focus_after_close-held ws p panels layout agree =
      ground (arith, head?-focus_held layout panels agree)

  -- After a removal: the focus where it was another panel, and else the new one.
  focus_held-remove :
      (o new : Option Uuid) (panels : Map (Panel F)) (p : Uuid)
      → focus_held o panels ≡ true
      → focus_held new (remove panels p) ≡ true
      → focus_held (if is_some_eq o p then new else o) (remove panels p) ≡ true
  focus_held-remove none new [] p h k = refl
  focus_held-remove none new (e ∷ panels) p h k = cc
  focus_held-remove (some id) new panels p h k = ground (arith, contains_key-remove panels p id)

  close_panel-IsSound :
      (ws : Workspace F) (p : Uuid) (panel : Panel F)
      → IsSound ws
      → IsSound (close_panel ws p panel)
  unfolding close_panel
  close_panel-IsSound ws p panel s =
      let panels = remove ws.panels p in
      let layout = (Edit.remove_panel ws.layout p).0 in
      let agree : Agree layout panels = Agree-remove ws.layout ws.panels p s.agree in
      record {
        agree = agree;
        shape = remove_panel-IsValid ws.layout p s.shape;
        focus =
            focus_held-remove ws.focused_panel_id (focus_after_close ws p panels layout) ws.panels p
              s.focus (focus_after_close-held ws p panels layout agree);
        capped = length-keep_last closed_panels_cap (ws.closed_panels ++ panel ∷ []);
      }

  -- `remove_panel` keeps a workspace sound: the map and the layout still hold the same panels, no
  -- pane is left empty, the focus is on a panel that is left, and at most ten closed panels are
  -- kept.
  pub remove_panel-IsSound :
      (ws : Workspace F) (p : Uuid) → IsSound ws → IsSound (remove_panel ws p).0
  unfolding remove_panel
  remove_panel-IsSound ws p s = elim (Option-cases (get ws.panels p)) [
    | inl e ↦ rw (e, remove_panel) s
    | inr (panel, e) ↦ rw (e, remove_panel) (close_panel-IsSound ws p panel s)
  ]

  detached-IsSound : (ws : Workspace F) (p : Uuid) → IsSound ws → IsSound (detached ws p)
  unfolding detached
  detached-IsSound ws p s =
      let panels = remove ws.panels p in
      let layout = (Edit.remove_panel ws.layout p).0 in
      let agree : Agree layout panels = Agree-remove ws.layout ws.panels p s.agree in
      record {
        agree = agree;
        shape = remove_panel-IsValid ws.layout p s.shape;
        focus =
            focus_held-remove ws.focused_panel_id (head? (all_panel_ids layout)) ws.panels p s.focus
              (head?-focus_held layout panels agree);
        capped = s.capped;
      }

  -- `detach_panel` keeps a workspace sound.
  detach_panel-IsSound : (ws : Workspace F) (p : Uuid) → IsSound ws → IsSound (detach_panel ws p).0
  unfolding detach_panel
  detach_panel-IsSound ws p s = elim (Option-cases (get ws.panels p)) [
    | inl e ↦ rw (e, detach_panel) s
    | inr (panel, e) ↦ rw (e, detach_panel) (detached-IsSound ws p s)
  ]

  -- If a workspace has the zoomed panel, `remove_panel` of it succeeds and leaves `zoomed_panel_id`
  -- naming that panel, which the map no longer has.
  remove_panel-zoomed :
      (ws : Workspace F) (p : Uuid)
      → contains_key ws.panels p ≡ true
      → ws.zoomed_panel_id ≡ some p
      → ((remove_panel ws p).1 ≡ true)
        × ((remove_panel ws p).0.zoomed_panel_id ≡ some p)
        × (contains_key (remove_panel ws p).0.panels p ≡ false)
  unfolding remove_panel close_panel
  remove_panel-zoomed ws p has zoomed = elim (Option-cases (get ws.panels p)) [
    | inl e ↦ absurd (ground (arith, is_some-get ws.panels p))
    | inr (panel, e) ↦
        rw (e, remove_panel) (refl, zoomed, ground (arith, contains_key-remove ws.panels p p))
  ]
