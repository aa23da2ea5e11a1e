-- ===== src/Layout/Divider.antt =====
-- The functions of `LayoutNode` that move dividers (jmux/src/model/panel.rs), over the float
-- operations `fl`.
use jmux.Base.{Bool, true, false, ◌&&◌, ◌||◌, List, [], ◌∷◌, if◌then◌else◌, leb, Uuid, contains}
use jmux.Base.Float.{FloatOps}
use jmux.Base.Text.{text_eq}
use jmux.Layout.{LayoutNode, pane, split, all_panel_ids}

-- `sort_unstable` on identifiers, by insertion: the sorted list does not depend on the algorithm.
unfoldable pub insert_sorted : Uuid → List Uuid → List Uuid
insert_sorted x [] = x ∷ []
insert_sorted x (y ∷ ys) = if leb x y then x ∷ y ∷ ys else y ∷ insert_sorted x ys

unfoldable pub sort : List Uuid → List Uuid
unfolding insert_sorted
sort [] = []
sort (x ∷ xs) = insert_sorted x (sort xs)

unfoldable pub same_panel_set : {F : Type 0} → LayoutNode F → List Uuid → Bool
same_panel_set node expected = text_eq (sort (all_panel_ids node)) (sort expected)

module _ {F : Type 0} (fl : FloatOps F) where
  unfoldable pub set_divider_position_for_split :
      LayoutNode F → List Uuid → List Uuid → F → LayoutNode F × Bool
  unfolding same_panel_set
  set_divider_position_for_split (pane ids sel) first_ids second_ids position =
      (pane ids sel, false)
  set_divider_position_for_split (split o d first second) first_ids second_ids position =
      let in_first : LayoutNode F × Bool =
        set_divider_position_for_split first first_ids second_ids position in
      let in_second : LayoutNode F × Bool =
        set_divider_position_for_split second first_ids second_ids position in
      if same_panel_set first first_ids && same_panel_set second second_ids
      then (split o (fl.clamp position fl.zero_point fl.one) first second, true)
      else (if in_first.1
          then (split o d in_first.0 second, true)
          else (split o d in_first.0 in_second.0, in_second.1))

  unfoldable pub resize_panel : LayoutNode F → Uuid → F → LayoutNode F × Bool
  unfolding all_panel_ids
  resize_panel (pane ids sel) panel_id amount = (pane ids sel, false)
  resize_panel (split o d first second) panel_id amount =
      let in_first = contains (all_panel_ids first) panel_id in
      let in_second = contains (all_panel_ids second) panel_id in
      let deeper_first : LayoutNode F × Bool = resize_panel first panel_id amount in
      let deeper_second : LayoutNode F × Bool = resize_panel second panel_id amount in
      let delta = if in_first then amount else fl.neg amount in
      if in_first && deeper_first.1
      then (split o d deeper_first.0 second, true)
      else (if in_second && deeper_second.1
          then (split o d first deeper_second.0, true)
          else (if in_first || in_second
              then (split o (fl.clamp (fl.add d delta) fl.low fl.high) first second, true)
              else (split o d first second, false)))

  unfoldable pub equalize : LayoutNode F → LayoutNode F × Bool
  equalize (pane ids sel) = (pane ids sel, false)
  equalize (split o d first second) =
      let c1 : LayoutNode F × Bool = equalize first in
      let c2 : LayoutNode F × Bool = equalize second in
      (split o fl.half c1.0 c2.0, fl.differs d fl.half || c1.1 || c2.1)
