-- ===== src/Layout/Neighbor.antt =====
-- Directional navigation: `neighbor` (jmux/src/model/panel.rs).
use jmux.Base.{
  ◌≡◌, ◌≢◌, ◌≤◌, ◌<◌, refl, none, some, List, [], ◌∷◌, arith, Uuid, count, contains-count, head?,
  get_last?,
}
use jmux.Layout.{Direction, LayoutNode, pane, split, all_panel_ids, neighbor}
use jmux.Layout.Count.{occurs, occurs-split}

head?-count : (ids : List Uuid) (x : Uuid) → head? ids ≡ some x → 0 < count x ids
head?-count [] x h = cc
head?-count (y ∷ ys) x h = ground arith

get_last?-count : (ids : List Uuid) (x : Uuid) → get_last? ids ≡ some x → 0 < count x ids
get_last?-count [] x h = cc
get_last?-count (y ∷ []) x h = ground arith
get_last?-count (y ∷ z ∷ ys) x h = ground (arith, get_last?-count (z ∷ ys) x h)

module _ {F : Type 0} where
  -- A panel that is not in the layout has no neighbor in any direction.
  neighbor-absent :
      (layout : LayoutNode F) (p : Uuid) (dir : Direction)
      → occurs layout p ≡ 0
      → neighbor layout p dir ≡ none
  unfolding neighbor
  neighbor-absent (pane ids sel) p dir h = refl
  neighbor-absent (split o d first second) p dir h = ground (
    arith,
    occurs-split o d first second p,
    contains-count (all_panel_ids first) p,
    contains-count (all_panel_ids second) p,
    neighbor-absent first p dir,
    neighbor-absent second p dir,
  )

  -- In a layout where no panel stands twice, a neighbor that is found is a panel of the layout and
  -- not the panel itself.
  neighbor-occurs :
      (layout : LayoutNode F) (p : Uuid) (dir : Direction) (q : Uuid)
      → ((x : Uuid) → occurs layout x ≤ 1)
      → neighbor layout p dir ≡ some q
      → (0 < occurs layout q) × (q ≢ p)
  unfolding neighbor
  neighbor-occurs (pane ids sel) p dir q once h = cc
  neighbor-occurs (split o d first second) p dir q once h = ground (
    arith,
    occurs-split o d first second p,
    occurs-split o d first second q,
    contains-count (all_panel_ids first) p,
    contains-count (all_panel_ids second) p,
    once p,
    once q,
    head?-count (all_panel_ids second) q,
    get_last?-count (all_panel_ids first) q,
    neighbor-occurs first p dir q (λ x. omega (arith, once x, occurs-split o d first second x)),
    neighbor-occurs second p dir q (λ x. omega (arith, once x, occurs-split o d first second x)),
  )
