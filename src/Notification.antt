-- ===== src/Notification.antt =====
-- wallet/src/features/notification: notification-type.ts and notify-user.ts. What the service does
-- with a notification, writing it to the console, is in `World`.
use tanta.Base.{String}

pub data NotificationType : Type 0 where
  email mobile : NotificationType

-- The values of the enum.
abbrev pub text_of : NotificationType → String
text_of email = "EMAIL"
text_of mobile = "MOBILE"

pub record NotifyUser : Type 0 where
  pub user_id : String
  pub message : String
  pub notification_type : NotificationType
