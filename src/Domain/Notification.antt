-- ===== src/Domain/Notification.antt =====
-- Notifications (packages/domain/src/notification.ts).
use gambling.Base.{
  ◌≡◌, refl, String, Bool, true, false, Option, Result, ok, arith, if◌then◌else◌,
  notification_validation, ◌>>=◌,
}
use gambling.Base.Platform.{Platform, require_text, require_date}

-- NOTIFICATION_TYPES
pub data NotificationType : Type 0 where
  purchase_success draw_closed_result_ready winning_actions_available : NotificationType

pub record NotificationRecord : Type 0 where
  pub notification_id : String
  pub user_id : String
  pub type : NotificationType
  pub title : String
  pub body : String
  pub read : Bool
  pub created_at : String
  pub reference_ticket_id : Option String
  pub reference_draw_id : Option String
  pub reference_lottery_code : Option String

pub record CreateNotificationInput : Type 0 where
  pub notification_id : String
  pub user_id : String
  pub type : NotificationType
  pub title : String
  pub body : String
  pub created_at : String
  pub reference_ticket_id : Option String
  pub reference_draw_id : Option String
  pub reference_lottery_code : Option String

unfoldable pub create_notification : Platform → CreateNotificationInput → Result NotificationRecord
create_notification p input = do
  notification_id ← require_text notification_validation input.notification_id "notificationId"
  user_id ← require_text notification_validation input.user_id "userId"
  title ← require_text notification_validation input.title "title"
  body ← require_text notification_validation input.body "body"
  created_at ← require_date p notification_validation input.created_at "createdAt"
  ok (record {
    notification_id = notification_id;
    user_id = user_id;
    type = input.type;
    title = title;
    body = body;
    read = false;
    created_at = created_at;
    reference_ticket_id = input.reference_ticket_id;
    reference_draw_id = input.reference_draw_id;
    reference_lottery_code = input.reference_lottery_code;
  })

unfoldable pub mark_notification_read : NotificationRecord → NotificationRecord
mark_notification_read n = if n.read then n else (record n { read = true })

-- A new notification is unread; marking it sets the flag and nothing else, and marking it again
-- changes nothing.
pub create-mark_notification_read :
    (p : Platform) (input : CreateNotificationInput) (n : NotificationRecord)
    → create_notification p input ≡ ok n
    → (n.read ≡ false)
      × (mark_notification_read n ≡ record n { read = true })
      × (mark_notification_read (mark_notification_read n) ≡ mark_notification_read n)
unfolding create_notification mark_notification_read
create-mark_notification_read p input n h =
    let unread : n.read ≡ false = ground arith in rw unread (refl, refl, refl)
