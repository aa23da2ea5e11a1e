-- ===== src/Notifications/Store.antt =====
-- The size of the notification store, and what is dismissed (jmux/src/notifications.rs).
use jmux.Base.{
  ◌/◌, ◌==◌, ltb, leb, ◌≡◌, ◌≤◌, ◌<◌, refl, sym, inl, inr, arith, Bool, false, not, ◌&&◌, Option,
  [], ◌∷◌, length, retain, any, length-append, length-drop, Uuid, Bool-cases,
}
use jmux.Base.Text.{Text}
use jmux.Notifications.{
  Notification, NotificationStore, max_notifications, make_room, add_with_retain, survives, dismiss,
}

module _ {F : Type 0} where
  length-make_room :
      (store : NotificationStore F) → length store ≤ 500 → length (make_room store) < 500
  length-make_room store h = elim (Bool-cases (leb 500 (length store))) [
    | inl full ↦ ground (arith, length-drop (length store / 4) store)
    | inr room ↦ ground arith
  ]

  -- A store of at most 500 notifications has at most 500 after a notification is added.
  length-add_with_retain :
      (new_uuid : Uuid) (now : F) (title body : Text) (workspace_id panel_id : Option Uuid)
      (kept : Bool) (store : NotificationStore F)
      → length store ≤ max_notifications
      → length (add_with_retain new_uuid now title body workspace_id panel_id kept store)
        ≤ max_notifications
  unfolding add_with_retain
  length-add_with_retain new_uuid now title body workspace_id panel_id kept store h =
      omega (arith, length-make_room store h, length-append (make_room store) _)

  -- What `dismiss` removes: the notification, unless it is to be retained and nothing forces it.
  abbrev pub is_dismissed : Uuid → Bool → Notification F → Bool
  is_dismissed id force n = n.id == id && not (n.retain_on_interrupt && not force)

  length-retain-survives :
      (id : Uuid) (force : Bool) (store : NotificationStore F)
      → (length (retain (survives id force) store) ≤ length store)
        × (any (is_dismissed id force) store
            ≡ ltb (length (retain (survives id force) store)) (length store))
  length-retain-survives id force [] = (omega arith, refl)
  length-retain-survives id force (n ∷ store) =
      let (le, same) = length-retain-survives id force store in
      (ground (arith, le), ground (arith, le, same))

  survivors :
      (id : Uuid) (force : Bool) (store : NotificationStore F)
      → any (is_dismissed id force) (retain (survives id force) store) ≡ false
  survivors id force [] = refl
  survivors id force (n ∷ store) = ground (arith, survivors id force store)

  others :
      (id : Uuid) (force : Bool) (store : NotificationStore F)
      → retain (λ n. not (n.id == id)) (retain (survives id force) store)
        ≡ retain (λ n. not (n.id == id)) store
  others id force [] = refl
  others id force (n ∷ store) = ground (arith, others id force store)

  -- `dismiss` leaves no notification with the identifier that is forced or not to be retained,
  -- keeps those with other identifiers in order, and returns whether there was one to remove.
  pub dismiss_lem :
      (id : Uuid) (force : Bool) (store : NotificationStore F)
      → (any (is_dismissed id force) (dismiss id force store).0 ≡ false)
        × (retain (λ n. not (n.id == id)) (dismiss id force store).0
            ≡ retain (λ n. not (n.id == id)) store)
        × ((dismiss id force store).1 ≡ any (is_dismissed id force) store)
  unfolding dismiss
  dismiss_lem id force store = (
    survivors id force store,
    others id force store,
    sym (length-retain-survives id force store).1,
  )
