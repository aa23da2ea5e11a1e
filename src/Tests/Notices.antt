-- ===== src/Tests/Notices.antt =====
-- A notification store, and the theorems on stores applied to it.
use jmux.Base.{
  ℕ, ◌≡◌, refl, Bool, true, false, not, ◌==◌, Option, none, some, [], ◌∷◌, any, retain, Uuid,
  if◌then◌else◌,
}
use jmux.Base.Text.{codes}
use jmux.Notifications.{
  Notification, NotificationStore, dismiss, unread_count_for_workspace, mark_workspace_read,
  mark_latest_unread_for_workspace,
}
use jmux.Notifications.Store.{is_dismissed, dismiss_lem}
use jmux.Notifications.Unread.{mark_workspace_read-count}

abbrev note : Uuid → Option Uuid → Bool → Notification ℕ
note id ws kept = record {
  id = id;
  title = codes "t";
  body = [];
  source_workspace_id = ws;
  source_panel_id = none;
  timestamp = 3;
  is_read = false;
  retain_on_interrupt = kept;
}

abbrev two_notes : NotificationStore ℕ
two_notes = note 1 (some 8) true ∷ note 2 (some 9) false ∷ []

-- A retained notification is only dismissed by force.
dismiss-retained : ((dismiss 1 false two_notes).1 ≡ false) × ((dismiss 1 true two_notes).1 ≡ true)
unfolding dismiss
dismiss-retained = (refl, refl)

mark_latest-test : (mark_latest_unread_for_workspace 9 two_notes).1 ≡ some 2
unfolding mark_latest_unread_for_workspace
mark_latest-test = refl

dismiss_lem_example :
    (any (is_dismissed 2 false) (dismiss 2 false two_notes).0 ≡ false)
    × (retain (λ n. not (n.id == 2)) (dismiss 2 false two_notes).0
        ≡ retain (λ n. not (n.id == 2)) two_notes)
    × ((dismiss 2 false two_notes).1 ≡ any (is_dismissed 2 false) two_notes)
dismiss_lem_example = dismiss_lem 2 false two_notes

mark_workspace_read-count_example :
    unread_count_for_workspace 9 (mark_workspace_read 8 two_notes)
    ≡ (if 8 == 9 then 0 else unread_count_for_workspace 9 two_notes)
mark_workspace_read-count_example = mark_workspace_read-count 8 9 two_notes
