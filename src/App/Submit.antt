-- ===== src/App/Submit.antt =====
-- src/bin/Application.cpp: a text that the user submits (`sendMessageSubmitted`), up to the update of
-- the window.
pub mod Delivered
use vox_desktop.Base.{
  String, Bool, true, false, not, Option, none, some, text_is_empty, if◌then◌else◌,
}
use vox_desktop.Base.Int.{pos}
use vox_desktop.Qt.{Qt}
use vox_desktop.Qt.Text.{QtText}
use vox_desktop.Network.{ApiResult, ConversationSummaryDto}
use vox_desktop.Services.Auth.{AuthContext}
use vox_desktop.Services.MessageSend.{SendEnv, Outbox, send_message}
use vox_desktop.App.Transport.{Base64, encrypt_for_transport}
use vox_desktop.App.Create.{may_post}

-- What the user is told: one of the three reasons not to send, or what `sendMessage` returned.
pub data Submitted : Type 0 where
  not_authenticated : Submitted
  no_conversation : Submitted
  read_only : Submitted
  submitted : Bool → Submitted

module _ (qt : Qt) (strings : QtText) (base64 : Base64) where
  abbrev pub send_text : SendEnv → String → AuthContext → String → Outbox → Submitted × Outbox
  send_text env conversation_id auth text box =
      let (ok, box') =
        send_message qt env conversation_id auth.device_id text
          (encrypt_for_transport qt strings base64 text) (pos 0) box in
      (submitted ok, box')

  unfoldable pub submit_message :
      SendEnv
      → (String → ApiResult ConversationSummaryDto)
      → Option AuthContext
      → String
      → String
      → Outbox
      → Submitted × Outbox
  submit_message env conversation none selected_conversation_id text box = (not_authenticated, box)
  submit_message env conversation (some auth) selected_conversation_id text box =
      if text_is_empty selected_conversation_id
      then (no_conversation, box)
      else if not (may_post strings (conversation selected_conversation_id))
      then (read_only, box)
      else send_text env selected_conversation_id auth text box
