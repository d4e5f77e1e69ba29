-- ===== src/App/Envelopes.antt =====
-- src/bin/Application.cpp: an envelope of the server becomes a message of the database
-- (`apply_envelope`), and the polling for pending envelopes.
pub mod Stored
use Prim.Native.String.{◌++◌ as append_text}
use vox_desktop.Base.{
  ℕ, ◌*◌, String, string_eq, ◌==◌, Bool, true, false, not, ◌&&◌, Bytes, Option, none, some, List,
  [], ◌∷◌, text_is_empty, if◌then◌else◌,
}
use vox_desktop.Base.Int.{ℤ, pos, natural, int_beq}
use vox_desktop.Qt.{Qt}
use vox_desktop.Qt.Text.{QtText}
use vox_desktop.Domain.{Message, text, draft}
use vox_desktop.Network.{
  ApiResult, ConversationSummaryDto, DirectoryUser, EnvelopeDto, EnvelopeBatchResponse,
}
use vox_desktop.Storage.Messages.{MessagesTable, upsert_message}
use vox_desktop.Services.Auth.{AuthContext}
use vox_desktop.App.Transport.{Base64, decrypt_for_ui}

abbrev pub envelope_id_suffix_length : ℕ
envelope_id_suffix_length = 6

abbrev pub envelope_millis_per_second : ℕ
envelope_millis_per_second = 1000

abbrev pub pending_envelopes_page_size : ℤ
pending_envelopes_page_size = pos 100

-- The answers of the server while envelopes are applied.
pub record EnvelopeApis : Type 0 where
  pub conversation : String → ApiResult ConversationSummaryDto
  pub user_by_id : String → ApiResult DirectoryUser

-- What the window has selected.
pub record UiState : Type 0 where
  pub selected_conversation_id : String
  pub selected_conversation_is_self_dm : Bool

-- The session's device, user and name, empty without a session.
abbrev pub my_device_id : Option AuthContext → String
my_device_id none = ""
my_device_id (some auth) = auth.device_id

abbrev pub my_user_id : Option AuthContext → String
my_user_id none = ""
my_user_id (some auth) = auth.user_id

abbrev pub my_username : Option AuthContext → String
my_username none = ""
my_username (some auth) = auth.username

abbrev pub is_peer : String → Option String → Bool
is_peer user_id none = false
is_peer user_id (some peer) = user_id == peer

abbrev pub is_dm_with : String → Option ConversationSummaryDto → Bool
is_dm_with user_id none = false
is_dm_with user_id (some dto) = int_beq dto.type (pos 0) && is_peer user_id dto.peer_user_id

unfoldable pub is_self_dm : EnvelopeApis → UiState → Option AuthContext → EnvelopeDto → Bool
is_self_dm apis ui auth env =
    let conv = apis.conversation env.conversation_id in
    if env.conversation_id == ui.selected_conversation_id
    then ui.selected_conversation_is_self_dm
    else conv.ok && is_dm_with (my_user_id auth) conv.payload

-- In a conversation with oneself the messages of this device are the outgoing ones, elsewhere those
-- of this user.
unfoldable pub is_outgoing : Bool → Option AuthContext → EnvelopeDto → Bool
is_outgoing self_dm auth env =
    if self_dm
    then not (text_is_empty (my_device_id auth)) && env.sender_device_id == my_device_id auth
    else not (text_is_empty (my_user_id auth)) && env.sender_user_id == my_user_id auth

abbrev pub name_or_id : String → ApiResult DirectoryUser → String
name_or_id user_id resolved = elim resolved.payload [
  | none ↦ user_id
  | some user ↦ if resolved.ok && not (text_is_empty user.username) then user.username else user_id
]

unfoldable pub author : EnvelopeApis → Bool → Option AuthContext → EnvelopeDto → String
author apis outgoing auth env =
    if outgoing
    then (if text_is_empty (my_username auth) then "me" else my_username auth)
    else if text_is_empty env.sender_user_id
    then env.sender_user_id
    else name_or_id env.sender_user_id (apis.user_by_id env.sender_user_id)

module _ (qt : Qt) (strings : QtText) (base64 : Base64) where
  abbrev pub plaintext_cache : EnvelopeDto → Bytes
  plaintext_cache env = elim (decrypt_for_ui qt strings base64 env.ciphertext) [
    | some plaintext ↦ qt.to_utf8 plaintext
    | none ↦ qt.to_utf8 (
        append_text "[Encrypted envelope "
          (append_text (strings.right env.envelope_id envelope_id_suffix_length) "]"))
  ]

  -- The message of an envelope. The fields that it does not set are those of a new record.
  unfoldable pub message_of_envelope :
      EnvelopeApis → UiState → Option AuthContext → EnvelopeDto → Message
  message_of_envelope apis ui auth env =
      let received = natural env.server_timestamp * envelope_millis_per_second in
      let outgoing = is_outgoing (is_self_dm apis ui auth env) auth env in
      record {
        message_id = env.envelope_id;
        conversation_id = env.conversation_id;
        sender_user_id = author apis outgoing auth env;
        sender_device_id = env.sender_device_id;
        server_seq = 0;
        client_created_at_ms = received;
        server_received_at_ms = received;
        content_kind = text;
        ciphertext_blob = qt.to_utf8 env.ciphertext;
        plaintext_cache_ciphertext = plaintext_cache env;
        delivery_state = draft;
        is_outgoing = outgoing;
        reply_to_message_id = none;
        sender_key_epoch = pos 0;
      }

  -- `apply_envelope`, as far as the database goes. Whether it ran is not looked at.
  unfoldable pub apply_envelope :
      EnvelopeApis
      → UiState
      → Option AuthContext
      → Bool
      → EnvelopeDto
      → MessagesTable
      → MessagesTable
  apply_envelope apis ui auth runs env t =
      (upsert_message runs (message_of_envelope apis ui auth env) t).1

  -- The loop over a page; `runs` says of each envelope whether the database stores its message.
  unfoldable pub apply_all :
      EnvelopeApis
      → UiState
      → Option AuthContext
      → (EnvelopeDto → Bool)
      → List EnvelopeDto
      → MessagesTable
      → MessagesTable
  apply_all apis ui auth runs [] t = t
  apply_all apis ui auth runs (env ∷ envelopes) t =
      apply_all apis ui auth runs envelopes (apply_envelope apis ui auth (runs env) env t)

  -- One tick of the poll timer, over the answer to the pending cursor.
  unfoldable pub poll :
      EnvelopeApis
      → UiState
      → Option AuthContext
      → (EnvelopeDto → Bool)
      → (ℤ → String → ApiResult EnvelopeBatchResponse)
      → String
      → MessagesTable
      → String × MessagesTable
  poll apis ui auth runs pending_envelopes pending_cursor t =
      let batch = pending_envelopes pending_envelopes_page_size pending_cursor in
      elim batch.payload [
        | none ↦ (pending_cursor, t)
        | some found ↦
            if not batch.ok
            then (pending_cursor, t)
            else (found.next_cursor, apply_all apis ui auth runs found.envelopes t)
      ]
