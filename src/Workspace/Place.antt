-- ===== src/Workspace/Place.antt =====
-- Adding and moving panels keeps a workspace sound (jmux/src/model/workspace.rs).
use jmux.Base.{
  ◌+◌, ◌==◌, ◌≡◌, inl, inr, true, false, Option, List, [], ◌∷◌, arith, Uuid, one_if, Option-cases,
  is_nil, count-append,
}
use jmux.Base.Map.{Map, contains_key, insert, contains_key-insert}
use jmux.Layout.{SplitOrientation, LayoutNode, pane, all_panel_ids, single_pane}
use jmux.Layout.Edit
use jmux.Layout.Count.{occurs, occurs-find_pane_with_panel}
use jmux.Layout.Valid.{is_full, find_pane_with_panel-full}
use jmux.Base.Text.{Text}
use jmux.Panel.{Panel, PanelType}
use jmux.Workspace.{Workspace}
use jmux.Workspace.Panels.{new, panel_of_type, split_focused, insert_panel, split}
use jmux.Workspace.Sound.{IsSound, Agree, full_of_panels}

module _ {F : Type 0} where
  -- Adding a panel that is new on both sides keeps the agreement.
  pub Agree-insert :
      (before after : LayoutNode F) (panels : Map (Panel F)) (p : Uuid) (panel : Panel F)
      → Agree before panels
      → contains_key panels p ≡ false
      → ((x : Uuid) → occurs after x ≡ occurs before x + one_if (p == x))
      → Agree after (insert panels p panel)
  Agree-insert before after panels p panel agree fresh added x =
      ground (arith, agree x, agree p, added x, contains_key-insert panels p x panel)

  occurs-split_with :
      (half : F) (layout : LayoutNode F) (o : SplitOrientation) (p x : Uuid)
      → occurs (Edit.split_with half layout o p) x ≡ occurs layout x + one_if (p == x)
  unfolding Edit.split_with all_panel_ids
  occurs-split_with half layout o p x =
      ground (arith, count-append x (all_panel_ids layout) (p ∷ []))

  occurs-split_focused :
      (half : F) (ws : Workspace F) (o : SplitOrientation) (p x : Uuid)
      → occurs (split_focused half ws o p) x ≡ occurs ws.layout x + one_if (p == x)
  unfolding split_focused all_panel_ids
  occurs-split_focused half ws o p x = elim (Option-cases ws.focused_panel_id) [
    | inl e ↦ rw (e, split_focused) (occurs-split_with half ws.layout o p x)
    | inr (f, e) ↦
        let write : List Uuid → Option Uuid → LayoutNode F =
          λ ids sel. Edit.split_with half (pane ids sel) o p in
        ground (
          arith,
          occurs-split_with half ws.layout o p x,
          occurs-find_pane_with_panel ws.layout f x write (one_if (p == x))
              (λ ids sel _. occurs-split_with half (pane ids sel) o p x),
        )
  ]

  split_focused-full :
      (half : F) (ws : Workspace F) (o : SplitOrientation) (p : Uuid)
      → is_full ws.layout ≡ true
      → is_full (split_focused half ws o p) ≡ true
  unfolding split_focused Edit.split_with
  split_focused-full half ws o p h =
      let write : List Uuid → Option Uuid → LayoutNode F =
        λ ids sel. Edit.split_with half (pane ids sel) o p in
      elim (Option-cases ws.focused_panel_id) [
        | inl e ↦ ground arith
        | inr (f, e) ↦
            ground
              (arith, find_pane_with_panel-full ws.layout f write (λ ids sel c s. ground arith) h)
      ]

  -- Inserting a panel under an identifier that is not in use keeps a sound workspace that has a
  -- panel sound.
  insert_panel-IsSound :
      (half : F) (ws : Workspace F) (panel : Panel F) (o : SplitOrientation)
      → IsSound ws
      → is_nil ws.panels ≡ false
      → contains_key ws.panels panel.id ≡ false
      → IsSound (insert_panel half ws panel o)
  unfolding insert_panel
  insert_panel-IsSound half ws panel o s some_panel fresh = record {
    agree =
        Agree-insert ws.layout (split_focused half ws o panel.id) ws.panels panel.id panel s.agree
          fresh (occurs-split_focused half ws o panel.id);
    shape = inl (split_focused-full half ws o panel.id (full_of_panels ws s some_panel));
    focus = ground (arith, contains_key-insert ws.panels panel.id panel.id panel);
    capped = s.capped;
  }

  -- Splitting the focused pane for a new panel, under an identifier that is not in use, keeps a
  -- sound workspace that has a panel sound.
  pub split-IsSound :
      (half : F) (ws : Workspace F) (o : SplitOrientation) (kind : PanelType) (id : Uuid)
      → IsSound ws
      → is_nil ws.panels ≡ false
      → contains_key ws.panels id ≡ false
      → IsSound (split half ws o kind id)
  unfolding split
  split-IsSound half ws o kind id s some_panel fresh = record {
    agree =
        Agree-insert ws.layout (split_focused half ws o id) ws.panels id (panel_of_type kind id)
          s.agree fresh (occurs-split_focused half ws o id);
    shape = inl (split_focused-full half ws o id (full_of_panels ws s some_panel));
    focus = ground (arith, contains_key-insert ws.panels id id (panel_of_type {F = F} kind id));
    capped = s.capped;
  }

  pub new-IsSound : (id panel_id : Uuid) (home : Text) → IsSound {F = F} (new id panel_id home)
  unfolding new single_pane all_panel_ids
  new-IsSound id panel_id home = record {
    agree = λ x. ground arith;
    shape = inl (ground arith);
    focus = ground arith;
    capped = omega arith;
  }
