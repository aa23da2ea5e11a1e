-- ===== src/Notifications.antt =====
-- The notification store (jmux/src/notifications.rs). A new identifier and the time come from
-- outside; desktop notifications are not part of the model.
pub mod Store
pub mod Unread
use jmux.Base.{
  ℕ, ◌+◌, ◌-◌, ◌/◌, ◌==◌, ltb, leb, ◌&&◌, ◌||◌, Bool, true, false, not, Option, none, some, List,
  [], ◌∷◌, ◌++◌, map, if◌then◌else◌, length, drop, retain, update_first, is_some_eq, or_else, Uuid,
}
use jmux.Base.Text.{Text}
use jmux.Workspace.Entries.{truncate_str}

-- `F` is the type of the time stamps.
pub record Notification (F : Type 0) : Type 0 where
  pub id : Uuid
  pub title : Text
  pub body : Text
  pub source_workspace_id : Option Uuid
  pub source_panel_id : Option Uuid
  pub timestamp : F
  pub is_read : Bool
  pub retain_on_interrupt : Bool

abbrev pub max_notifications : ℕ
max_notifications = 500

-- `NotificationStore` is its list, the newest last.
abbrev pub NotificationStore : Type 0 → Type 0
NotificationStore F = List (Notification F)

module _ {F : Type 0} where
  -- A quarter of a full store is dropped before the push.
  abbrev pub make_room : NotificationStore F → NotificationStore F
  make_room store =
      if leb max_notifications (length store) then drop (length store / 4) store else store

  -- `add_with_retain`; the identifier is `new_uuid`, the time `now`.
  unfoldable pub add_with_retain :
      Uuid
      → F
      → Text
      → Text
      → Option Uuid
      → Option Uuid
      → Bool
      → NotificationStore F
      → NotificationStore F
  add_with_retain new_uuid now title body workspace_id panel_id retain_on_interrupt store =
      make_room store
      ++ record {
        id = new_uuid;
        title = truncate_str title 1024;
        body = truncate_str body 8192;
        source_workspace_id = workspace_id;
        source_panel_id = panel_id;
        timestamp = now;
        is_read = false;
        retain_on_interrupt = retain_on_interrupt;
      }
        ∷ []

  abbrev pub add :
      Uuid → F → Text → Text → Option Uuid → Option Uuid → NotificationStore F → NotificationStore F
  add new_uuid now title body workspace_id panel_id store =
      add_with_retain new_uuid now title body workspace_id panel_id false store

  unfoldable pub unread_count : NotificationStore F → ℕ
  unread_count store = length (retain (λ n. not n.is_read) store)

  -- `unread_for_workspace`
  unfoldable unread_for_workspace : Uuid → NotificationStore F → List (Notification F)
  unread_for_workspace ws store =
      retain (λ n. not n.is_read && is_some_eq n.source_workspace_id ws) store

  unfoldable pub unread_count_for_workspace : Uuid → NotificationStore F → ℕ
  unread_count_for_workspace ws store =
      length (retain (λ n. not n.is_read && is_some_eq n.source_workspace_id ws) store)

  abbrev set_read : Bool → Notification F → Notification F
  set_read read n = record n { is_read = read }

  unfoldable mark_read : Uuid → NotificationStore F → NotificationStore F
  mark_read id store = update_first (λ n. n.id == id) (set_read true) store

  -- The loop of `mark_workspace_read`, on one notification.
  abbrev read_in : Uuid → Notification F → Notification F
  read_in ws n = if is_some_eq n.source_workspace_id ws then set_read true n else n

  unfoldable pub mark_workspace_read : Uuid → NotificationStore F → NotificationStore F
  mark_workspace_read ws store = map (read_in ws) store

  unfoldable pub mark_all_read : NotificationStore F → NotificationStore F
  mark_all_read store = map (set_read true) store

  unfoldable mark_unread : Uuid → NotificationStore F → NotificationStore F
  mark_unread id store = update_first (λ n. n.id == id) (set_read false) store

  -- Whether `dismiss` keeps a notification.
  abbrev pub survives : Uuid → Bool → Notification F → Bool
  survives id force n = if n.id == id then n.retain_on_interrupt && not force else true

  -- The store, and whether it has become smaller.
  unfoldable pub dismiss : Uuid → Bool → NotificationStore F → NotificationStore F × Bool
  dismiss id force store =
      let kept = retain (survives id force) store in (kept, ltb (length kept) (length store))

  -- The identifier of the newest notification of a workspace.
  abbrev latest : Uuid → NotificationStore F → Option Uuid
  latest ws [] = none
  latest ws (n ∷ store) =
      or_else (latest ws store) (if is_some_eq n.source_workspace_id ws then some n.id else none)

  abbrev unread_by : NotificationStore F → Option Uuid → NotificationStore F × Option Uuid
  unread_by store none = (store, none)
  unread_by store (some id) = (mark_unread id store, some id)

  unfoldable pub mark_latest_unread_for_workspace :
      Uuid → NotificationStore F → NotificationStore F × Option Uuid
  unfolding mark_unread
  mark_latest_unread_for_workspace ws store = unread_by store (latest ws store)

  unfoldable clear : NotificationStore F → NotificationStore F
  clear store = []
