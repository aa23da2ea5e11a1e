-- ===== src/Notifications/Unread.antt =====
-- Unread notifications (jmux/src/notifications.rs).
use jmux.Base.{◌==◌, ◌≡◌, refl, arith, [], ◌∷◌, if◌then◌else◌, Uuid, Option-cases}
use jmux.Notifications.{
  NotificationStore, unread_count, unread_count_for_workspace, mark_workspace_read, mark_all_read,
}

module _ {F : Type 0} where
  -- Marking a workspace read leaves it no unread notification, and leaves the unread count of every
  -- other workspace.
  pub mark_workspace_read-count :
      (ws other : Uuid) (store : NotificationStore F)
      → unread_count_for_workspace other (mark_workspace_read ws store)
        ≡ (if ws == other then 0 else unread_count_for_workspace other store)
  unfolding mark_workspace_read unread_count_for_workspace
  mark_workspace_read-count ws other [] = ground arith
  mark_workspace_read-count ws other (n ∷ store) =
      ground (arith, mark_workspace_read-count ws other store, Option-cases n.source_workspace_id)

  mark_all_read-count : (store : NotificationStore F) → unread_count (mark_all_read store) ≡ 0
  unfolding mark_all_read unread_count
  mark_all_read-count [] = refl
  mark_all_read-count (n ∷ store) = mark_all_read-count store
