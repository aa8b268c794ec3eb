-- ===== src/Application/Store/Notifications.antt =====
-- The store of notifications
-- (packages/infrastructure/src/purchase/in-memory-notification-store.ts).
use gambling.Base.{String, true, not, Option, List, [], ◌∷◌, ◌++◌, ◌==◌, map, if◌then◌else◌}
use gambling.Base.Lists.{find, keep}
use gambling.Base.Sort.{sort}
use gambling.Base.Platform.{Platform}
use gambling.Domain.Notification.{NotificationRecord}

abbrev pub Notifications : Type 0
Notifications = List NotificationRecord

unfoldable pub save_notification : Notifications → NotificationRecord → Notifications
save_notification store n = keep (λ e. not (e.notification_id == n.notification_id)) store ++ n ∷ []

-- the latest first
unfoldable pub list_user_notifications : Platform → Notifications → String → List NotificationRecord
list_user_notifications p store user_id =
    sort (λ a b. p.locale_compare b.created_at a.created_at)
      (keep (λ n. n.user_id == user_id) store)

unfoldable pub get_notification_by_id : Notifications → String → Option NotificationRecord
get_notification_by_id store id = find (λ e. e.notification_id == id) store

-- `markNotificationRead` of the store
unfoldable pub mark_read : Notifications → String → Notifications
mark_read store id =
    map (λ n. if n.notification_id == id then (record n { read = true }) else n) store

unfoldable pub clear_all : Notifications → Notifications
clear_all store = []
