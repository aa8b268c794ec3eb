-- ===== src/Application/NotificationService.antt =====
-- The notification service (packages/application/src/services/notification-service.ts) over the store
-- of notifications. `NotificationView` has the fields of the record, so a view is the record.
use gambling.Base.{
  ℕ, ◌+◌, ◌≡◌, inl, inr, arith, String, Bool, true, false, not, Option, none, some, List, [], ◌∷◌,
  if◌then◌else◌, Bool-cases,
}
use gambling.Base.Lists.{length, keep, any}
use gambling.Base.Sort.{sort}
use gambling.Base.Platform.{Platform}
use gambling.Domain.Notification.{
  NotificationRecord, NotificationType, winning_actions_available, mark_notification_read,
}
use gambling.Application.Store.Notifications.{
  Notifications, list_user_notifications, get_notification_by_id, mark_read,
}

pub record NotificationBadge : Type 0 where
  pub unread_count : ℕ
  pub has_winning_actions : Bool

abbrev is_winning_actions : NotificationType → Bool
is_winning_actions winning_actions_available = true
is_winning_actions type = false

unfoldable list_views : Platform → Notifications → String → List NotificationRecord
list_views p store user_id =
    sort (λ a b. p.locale_compare b.created_at a.created_at)
      (list_user_notifications p store user_id)

abbrev unread_of : List NotificationRecord → List NotificationRecord
unread_of listed = keep (λ n. not n.read) listed

unfoldable get_notification_badge : Platform → Notifications → String → NotificationBadge
get_notification_badge p store user_id =
    let unread = unread_of (list_user_notifications p store user_id) in
    record {
      unread_count = length unread;
      has_winning_actions = any (λ n. is_winning_actions n.type) unread;
    }

-- `!==` of two flags
abbrev differ : Bool → Bool → Bool
differ true other = not other
differ false other = other

-- the call on the notification that was found
abbrev mark_found : Notifications → String → Option NotificationRecord → Notifications
mark_found store id none = store
mark_found store id (some n) =
    if differ (mark_notification_read n).read n.read then mark_read store id else store

unfoldable mark_as_read : Notifications → String → Notifications
mark_as_read store id = mark_found store id (get_notification_by_id store id)

-- the loop over the listed notifications: how many were marked, and the store
unfoldable mark_each : List NotificationRecord → ℕ → Notifications → ℕ × Notifications
mark_each [] marked store = (marked, store)
mark_each (n ∷ listed) marked store =
    mark_each listed (if n.read then marked else marked + 1)
      (if n.read then store else mark_read store n.notification_id)

unfoldable mark_all_user_notifications_read : Platform → Notifications → String → ℕ × Notifications
mark_all_user_notifications_read p store user_id =
    mark_each (list_user_notifications p store user_id) 0 store

mark_each_count :
    (listed : List NotificationRecord) (marked : ℕ) (store : Notifications)
    → (mark_each listed marked store).0 ≡ marked + length (unread_of listed)
unfolding mark_each
mark_each_count [] marked store = ground arith
mark_each_count (n ∷ listed) marked store = elim (Bool-cases n.read) [
  | inl h ↦ rw h (mark_each_count listed marked store)
  | inr h ↦
      let others = mark_each_count listed (marked + 1) (mark_read store n.notification_id) in
      rw h (ground (arith, others))
]

-- As many notifications are marked as the badge counted as unread.
mark_all_counts :
    (p : Platform) (store : Notifications) (user_id : String)
    → (mark_all_user_notifications_read p store user_id).0
      ≡ (get_notification_badge p store user_id).unread_count
unfolding mark_all_user_notifications_read get_notification_badge
mark_all_counts p store user_id =
    let counted = mark_each_count (list_user_notifications p store user_id) 0 store in
    ground (arith, counted)
