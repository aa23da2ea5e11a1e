-- ===== src/Tabs/Cut.antt =====
-- Where the block of a group goes among the other workspaces (jmux/src/model/tab_manager.rs).
use jmux.Base.{
  ◌==◌, zero, ℕ, suc, ◌≡◌, ap, refl, inl, inr, sym, ◌∙◌, arith, false, Option, none, some, List, [],
  ◌∷◌, Uuid, length, get_elem?, position, any, is_some, take, drop, Option-cases,
  get_elem?-position, ==_iff,
}
use jmux.Base.Pieces.{any-position}
use jmux.Workspace.{Workspace}
use jmux.Tabs.{has_id}
use jmux.Tabs.Groups.{insert_position}
use jmux.Tabs.Bulk.{position-first}

module _ {F : Type 0} where
  -- A list cut where a block goes: before the first workspace with the target's identifier, or at
  -- the end where there is no target or no such workspace.
  pub data Cut (before after : List (Workspace F)) : Option Uuid → Type 0 where
    at_target :
        (id : Uuid) (ws : Workspace F) (rest : List (Workspace F))
        → after ≡ ws ∷ rest
        → ws.id ≡ id
        → any (λ (w : Workspace F). w.id == id) before ≡ false
        → Cut before after (some id)
    no_target : after ≡ [] → Cut before after none
    target_gone :
        (id : Uuid)
        → after ≡ []
        → any (λ (w : Workspace F). w.id == id) before ≡ false
        → Cut before after (some id)

  drop-get_elem? :
      (xs : List (Workspace F)) (i : ℕ) (ws : Workspace F)
      → get_elem? xs i ≡ some ws
      → drop i xs ≡ ws ∷ drop (suc i) xs
  drop-get_elem? [] i ws e = cc
  drop-get_elem? (x ∷ xs) zero ws e = ground arith
  drop-get_elem? (x ∷ xs) (suc i) ws e = drop-get_elem? xs i ws e

  drop_all : (xs : List (Workspace F)) → drop (length xs) xs ≡ []
  drop_all [] = refl
  drop_all (x ∷ xs) = drop_all xs

  take_all : (xs : List (Workspace F)) → take (length xs) xs ≡ xs
  take_all [] = refl
  take_all (x ∷ xs) = ap (◌∷◌ x) (take_all xs)

  pub insert_position-Cut :
      (others : List (Workspace F)) (target : Option Uuid)
      → Cut
          (take (insert_position others target) others)
          (drop (insert_position others target) others)
          target
  insert_position-Cut others none = no_target (drop_all others)
  insert_position-Cut others (some id) = elim (Option-cases (position (has_id id) others)) [
    | inl absent ↦ rw absent (
        target_gone id (drop_all others)
          (rw (take_all others) (sym (any-position (has_id id) others) ∙ ap is_some absent)))
    | inr (i, found) ↦
        let (ws, at_i, same) = get_elem?-position (has_id id) others i found in
        rw found (
          at_target id ws (drop (suc i) others) (drop-get_elem? others i ws at_i)
            ((==_iff ws.id id).0 same) (position-first (has_id id) others i found))
  ]
