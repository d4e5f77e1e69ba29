-- ===== src/Services/Notification.antt =====
-- src/services/NotificationService.cpp.
use Prim.Native.String.{◌++◌ as append_text}
use vox_desktop.Base.{String, Bool, not, if◌then◌else◌}

pub record NotificationService : Type 0 where
  pub show_previews : Bool

unfoldable pub notification_preview : NotificationService → String → String → String
notification_preview s sender message =
    if not s.show_previews
    then append_text sender ": New encrypted message"
    else append_text sender (append_text ": " message)

unfoldable pub set_show_previews : NotificationService → Bool → NotificationService
set_show_previews s enabled = record s { show_previews = enabled }
