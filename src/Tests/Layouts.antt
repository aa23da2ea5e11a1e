-- ===== src/Tests/Layouts.antt =====
-- The theorems on layout trees at a concrete tree.
use jmux.Base.{
  ℕ, ◌+◌, ◌-◌, ◌==◌, ◌≡◌, ◌≤◌, refl, inl, false, not, some, List, [], ◌∷◌, arith, if◌then◌else◌,
  ltb, leb, Uuid, one_if,
}
use jmux.Base.Float.{FloatOps}
use jmux.Layout.{horizontal, LayoutNode, pane, split, all_panel_ids, next_panel_id, prev_panel_id}
use jmux.Layout.Edit.{remove_panel}
use jmux.Layout.Divider.{resize_panel}
use jmux.Layout.Count.{occurs, remove_panel_lem}
use jmux.Layout.Valid.{IsValid, remove_panel-IsValid}
use jmux.Layout.Cycle.{next_panel_id-prev_panel_id}
use jmux.Layout.Dividers.{AllDividers, ClampLaw, Within, IsAmount, resize_panel-Within}

-- Thousandths above -10: exact arithmetic in place of floats.
abbrev biased : FloatOps ℕ
biased = record {
  zero_point = 10000;
  low = 10050;
  half = 10500;
  high = 10950;
  one = 11000;
  add = λ a b. a + b - 10000;
  neg = λ a. 20000 - a;
  clamp = λ x lo hi. if ltb x lo then lo else (if ltb hi x then hi else x);
  le = leb;
  differs = λ a b. not (a == b);
}

abbrev left_tabs : List Uuid
left_tabs = 1 ∷ 2 ∷ []

-- Two tabs on the left, one panel on the right.
abbrev two_panes : LayoutNode ℕ
two_panes = split horizontal 10500 (pane left_tabs (some 1)) (pane (3 ∷ []) (some 3))

two_panes-nodup : (x : Uuid) → occurs two_panes x ≤ 1
unfolding all_panel_ids
two_panes-nodup x = ground arith

remove_panel_lem_example :
    ((remove_panel two_panes 3).1 ≡ ltb 0 (occurs two_panes 3))
    × ((x : Uuid) → occurs (remove_panel two_panes 3).0 x ≡ occurs two_panes x - one_if (3 == x))
    × ((remove_panel two_panes 3).1 ≡ false → (remove_panel two_panes 3).0 ≡ two_panes)
remove_panel_lem_example = remove_panel_lem two_panes 3

remove_panel-IsValid_example : IsValid (remove_panel two_panes 3).0
remove_panel-IsValid_example = remove_panel-IsValid two_panes 3 (inl refl)

next_panel_id-prev_panel_id_example :
    (next : Uuid) × (next_panel_id two_panes 3 ≡ some next)
    × (prev_panel_id two_panes next ≡ some 3)
unfolding all_panel_ids
next_panel_id-prev_panel_id_example =
    next_panel_id-prev_panel_id two_panes 3 two_panes-nodup (ground arith)

biased-ClampLaw : ClampLaw biased
biased-ClampLaw x lo hi number h = ground arith

biased-IsAmount : (amount : ℕ) → IsAmount biased amount
biased-IsAmount amount d h = ground arith

resize_panel-Within_example :
    AllDividers (Within biased 10050 10950) (resize_panel biased two_panes 1 10900).0
resize_panel-Within_example =
    resize_panel-Within biased two_panes 1 10900 biased-ClampLaw (biased-IsAmount 10900) refl
      ((refl, refl), tt, tt)
