-- ===== src/Workspace/Move.antt =====
-- Moving panels within a workspace, and reopening a closed one (jmux/src/model/workspace.rs): the
-- workspace stays sound, and the move succeeds whenever the code's guards let it through.
use jmux.Base.{
  ◌+◌, ◌==◌, ◌≡◌, refl, inl, inr, true, false, ◌&&◌, not, [], ◌∷◌, arith, ltb, Uuid, one_if,
  contains-count, Bool-cases, is_nil,
}
use jmux.Base.Map.{Map, contains_key}
use jmux.Layout.{SplitOrientation, Direction, LayoutNode}
use jmux.Layout.Edit
use jmux.Layout.Count.{occurs, occurs-remove_panel}
use jmux.Layout.Moves.{
  occurs-split_pane_with_panel, occurs-add_panel_to_pane, add_panel_to_pane-found,
  occurs-split_pane_with_panel-found, count-insert_after,
}
use jmux.Layout.Valid.{
  is_full, remove_panel-IsValid, find_pane_with_panel-full, split_pane_with_panel-full,
}
use jmux.Panel.{Panel}
use jmux.Workspace.{Workspace}
use jmux.Workspace.Rearrange.{move_panel_to_pane, shares_pane, refocused}
use jmux.Workspace.Sound.{IsSound, is_blank→occurs}

module _ {F : Type 0} where
  -- A held focus stands in the layout.
  pub has_not_nil : (m : Map (Panel F)) (k : Uuid) → contains_key m k ≡ true → is_nil m ≡ false
  has_not_nil [] k h = cc
  has_not_nil (e ∷ m) k h = refl

  pub add_panel_to_pane-full :
      (layout : LayoutNode F) (target new : Uuid)
      → is_full layout ≡ true
      → is_full (Edit.add_panel_to_pane layout target new).0 ≡ true
  unfolding Edit.add_panel_to_pane
  add_panel_to_pane-full layout target new h =
      find_pane_with_panel-full layout target _
        (λ ids sel c q. ground (
          arith,
          contains-count (Edit.insert_after ids target new) new,
          count-insert_after ids target new new,
        ))
        h

  module _ (ws : Workspace F) (s : IsSound ws) (source target : Uuid)
      (has_source : contains_key ws.panels source ≡ true)
      (has_target : contains_key ws.panels target ≡ true) (other : (source == target) ≡ false) where
    -- Once the source is taken out, the target still stands in a layout without empty panes.
    taken_target : ltb 0 (occurs (Edit.remove_panel ws.layout source).0 target) ≡ true
    taken_target = ground (arith, s.agree target, occurs-remove_panel ws.layout source target)

    taken-full : is_full (Edit.remove_panel ws.layout source).0 ≡ true
    taken-full = ground (
      arith,
      remove_panel-IsValid ws.layout source s.shape,
      taken_target,
      is_blank→occurs (Edit.remove_panel ws.layout source).0 target,
    )

    -- A layout that has the source back keeps the workspace sound.
    refocused-IsSound :
        (layout : LayoutNode F)
        → ((x : Uuid)
            → occurs layout x
              ≡ occurs (Edit.remove_panel ws.layout source).0 x + one_if (source == x))
        → is_full layout ≡ true
        → IsSound (refocused ws layout source)
    refocused-IsSound layout back full = record {
      agree = λ x.
          ground (arith, s.agree x, s.agree source, back x, occurs-remove_panel ws.layout source x);
      shape = inl full;
      focus = has_source;
      capped = s.capped;
    }

    added-IsSound : IsSound (
        refocused ws
          (Edit.add_panel_to_pane (Edit.remove_panel ws.layout source).0 target source).0
          source)
    added-IsSound =
        let taken = (Edit.remove_panel ws.layout source).0 in
        refocused-IsSound (Edit.add_panel_to_pane taken target source).0
          (λ x.
            occurs-add_panel_to_pane taken target source x
              (ground (arith, add_panel_to_pane-found taken target source, taken_target)))
          (add_panel_to_pane-full taken target source taken-full)

    pub placed-IsSound :
        (half : F) (o : SplitOrientation) (d : Direction)
        → IsSound (
            refocused ws
              (Edit.split_pane_with_panel half
                (Edit.remove_panel ws.layout source).0
                target
                source
                o
                d).0
              source)
    placed-IsSound half o d =
        let taken = (Edit.remove_panel ws.layout source).0 in
        refocused-IsSound (Edit.split_pane_with_panel half taken target source o d).0
          (λ x.
            ground
              (arith, occurs-split_pane_with_panel half taken target source o d x, taken_target))
          (split_pane_with_panel-full half taken target source o d taken-full)

    added_flag :
        (Edit.add_panel_to_pane (Edit.remove_panel ws.layout source).0 target source).1 ≡ true
    added_flag = ground (
      arith,
      add_panel_to_pane-found (Edit.remove_panel ws.layout source).0 target source,
      taken_target,
    )

    pub placed_flag :
        (half : F) (o : SplitOrientation) (d : Direction)
        → (Edit.split_pane_with_panel half
            (Edit.remove_panel ws.layout source).0
            target
            source
            o
            d).1
          ≡ true
    placed_flag half o d = ground (
      arith,
      occurs-split_pane_with_panel-found half (Edit.remove_panel ws.layout source).0 target source o
          d,
      taken_target,
    )

  -- In a sound workspace `move_panel_to_pane` succeeds exactly if the panels are two different ones
  -- of the workspace that share no pane. It keeps the workspace sound, and changes nothing where it
  -- fails.
  pub move_panel_to_pane_lem :
      (ws : Workspace F) (source target : Uuid)
      → IsSound ws
      → IsSound (move_panel_to_pane ws source target).0
        × ((move_panel_to_pane ws source target).1 ≡ (
            not (source == target)
            && contains_key ws.panels source
            && contains_key ws.panels target
            && not (shares_pane ws source target)))
        × ((move_panel_to_pane ws source target).1 ≡ false
            → (move_panel_to_pane ws source target).0 ≡ ws)
  unfolding move_panel_to_pane
  move_panel_to_pane_lem ws source target s = elim (Bool-cases (source == target)) [
    | inl same ↦ rw (same, move_panel_to_pane) (s, refl, λ _. refl)
    | inr other ↦ elim (Bool-cases (contains_key ws.panels source)) [
      | inr no_source ↦ rw (other, no_source, move_panel_to_pane) (s, refl, λ _. refl)
      | inl has_source ↦ elim (Bool-cases (contains_key ws.panels target)) [
        | inr no_target ↦ rw (other, has_source, no_target, move_panel_to_pane) (s, refl, λ _. refl)
        | inl has_target ↦ elim (Bool-cases (shares_pane ws source target)) [
          | inl shared ↦
              rw (other, has_source, has_target, shared, move_panel_to_pane) (s, refl, λ _. refl)
          | inr apart ↦
              rw
                (
                  other,
                  has_source,
                  has_target,
                  apart,
                  added_flag ws s source target has_source has_target other,
                  move_panel_to_pane,
                )
                (added-IsSound ws s source target has_source has_target other, refl, λ h. cc)
        ]
      ]
    ]
  ]
