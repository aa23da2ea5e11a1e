-- ===== src/Workspace/Sound.antt =====
-- The invariant of a workspace: its layout tree and its map of panels agree, and the focus is on a
-- panel that it has (jmux/src/model/workspace.rs).
use jmux.Base.{
  ◌≡◌, ◌≤◌, refl, Bool, true, false, Option, none, some, List, [], ◌∷◌, arith, Uuid, one_if, length,
  head?, is_nil,
}
use jmux.Base.Map.{Map, contains_key, remove, contains_key-remove, nil_of_no_key}
use jmux.Layout.{LayoutNode, pane, all_panel_ids, split as split_node}
use jmux.Layout.Edit
use jmux.Layout.Count.{occurs, occurs-remove_panel}
use jmux.Layout.Valid.{is_full, is_blank, IsValid}
use jmux.Panel.{Panel}
use jmux.Workspace.{Workspace}
use jmux.Workspace.Panels.{closed_panels_cap}

module _ {F : Type 0} where
  -- The focus is on a panel of the map, or there is no panel.
  abbrev pub focus_held : Option Uuid → Map (Panel F) → Bool
  focus_held none panels = is_nil panels
  focus_held (some id) panels = contains_key panels id

  -- Each panel of the map stands exactly once in the layout and no other does, no pane is empty and
  -- each shows one of its tabs, the focus is held, and at most ten closed panels are kept.
  pub record IsSound (ws : Workspace F) : Type 0 where
    pub agree : (x : Uuid) → occurs ws.layout x ≡ one_if (contains_key ws.panels x)
    pub shape : IsValid ws.layout
    pub focus : focus_held ws.focused_panel_id ws.panels ≡ true
    pub capped : length ws.closed_panels ≤ closed_panels_cap

  -- Blank layouts hold no panel.
  pub is_blank→occurs :
      (layout : LayoutNode F) (x : Uuid) → is_blank layout ≡ true → occurs layout x ≡ 0
  unfolding all_panel_ids
  is_blank→occurs (pane [] none) x h = refl
  is_blank→occurs (pane [] (some s)) x h = cc
  is_blank→occurs (pane (y ∷ ys) s) x h = cc
  is_blank→occurs (split_node o d first second) x h = cc

  key_of_not_nil : (m : Map (Panel F)) → is_nil m ≡ false → (k : Uuid) × (contains_key m k ≡ true)
  key_of_not_nil [] h = cc
  key_of_not_nil ((k, v) ∷ m) h = (k, ground arith)

  -- The layout of a workspace that has a panel has no empty pane.
  pub full_of_panels :
      (ws : Workspace F) → IsSound ws → is_nil ws.panels ≡ false → is_full ws.layout ≡ true
  full_of_panels ws s h =
      let (x, has) = key_of_not_nil ws.panels h in
      ground (arith, s.agree x, s.shape, is_blank→occurs ws.layout x)

  -- A layout and a map agree.
  abbrev pub Agree : LayoutNode F → Map (Panel F) → Type 0
  Agree layout panels = (x : Uuid) → occurs layout x ≡ one_if (contains_key panels x)

  pub Agree-remove :
      (layout : LayoutNode F) (panels : Map (Panel F)) (p : Uuid)
      → Agree layout panels
      → Agree (Edit.remove_panel layout p).0 (remove panels p)
  Agree-remove layout panels p agree x =
      ground (arith, agree x, occurs-remove_panel layout p x, contains_key-remove panels p x)

  -- The first panel of the layout is a focus for a map that agrees with it.
  pub head?-focus_held :
      (layout : LayoutNode F) (panels : Map (Panel F))
      → Agree layout panels
      → focus_held (head? (all_panel_ids layout)) panels ≡ true
  head?-focus_held layout panels agree = from_ids (all_panel_ids layout) refl
    where
      from_ids :
          (ids : List Uuid) → all_panel_ids layout ≡ ids → focus_held (head? ids) panels ≡ true
      from_ids [] e = rw (nil_of_no_key panels (λ k. ground (arith, agree k)))
      from_ids (y ∷ ys) e = ground (arith, agree y)
