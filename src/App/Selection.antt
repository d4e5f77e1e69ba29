-- ===== src/App/Selection.antt =====
-- src/bin/Application.cpp: a conversation that the user selects (the second handler of
-- `conversationSelected`), up to the update of the window.
pub mod Agrees
use Prim.Native.String.{◌++◌ as append_text}
use vox_desktop.Base.{
  ℕ, ◌*◌, Bytes, string_eq, ◌==◌, not, ◌&&◌, text_is_empty, String, Bool, true, false, Option, none,
  some, List, [], ◌∷◌, has_value, if◌then◌else◌,
}
use vox_desktop.Base.Int.{ℤ, pos, natural, int_beq}
use vox_desktop.Qt.{Qt}
use vox_desktop.Qt.Text.{QtText}
use vox_desktop.Domain.{Message, text, draft}
use vox_desktop.Network.{ApiResult, ConversationSummaryDto, EnvelopeDto, EnvelopeBatchResponse}
use vox_desktop.Storage.Messages.{MessagesTable, upsert_message, list_conversation_messages}
use vox_desktop.Services.Auth.{AuthContext}
use vox_desktop.App.Transport.{Base64, decrypt_for_ui}
use vox_desktop.App.Create.{accepted}
use vox_desktop.App.Envelopes.{EnvelopeApis, UiState, pending_envelopes_page_size}

pub record SelectionResult : Type 0 where
  pub has_summary : Bool
  pub title : String
  pub type : ℤ
  pub selected_conversation_is_self_dm : Bool
  pub messages : List Message

abbrev pub title_of : Option ConversationSummaryDto → String
title_of none = ""
title_of (some summary) = summary.title

abbrev pub type_of : Option ConversationSummaryDto → ℤ
type_of none = pos 0
type_of (some summary) = summary.type

abbrev pub envelopes_of : Option EnvelopeBatchResponse → List EnvelopeDto
envelopes_of none = []
envelopes_of (some batch) = batch.envelopes

-- Whether the conversation is one with oneself.
unfoldable pub is_summary_of_self : String → Option ConversationSummaryDto → Bool
is_summary_of_self user_id none = false
is_summary_of_self user_id (some summary) = elim summary.peer_user_id [
  | none ↦ false
  | some peer ↦ int_beq summary.type (pos 0) && peer == user_id
]

-- The session's device, user and name, as this handler reads them.
abbrev pub session_text : Option AuthContext → (AuthContext → String) → String
session_text none field = ""
session_text (some auth) field = field auth

unfoldable pub selected_is_outgoing : Bool → Option AuthContext → EnvelopeDto → Bool
selected_is_outgoing self_dm auth env =
    let device_id = session_text auth (λ (a : AuthContext). a.device_id) in
    let user_id = session_text auth (λ (a : AuthContext). a.user_id) in
    if self_dm
    then not (text_is_empty device_id) && env.sender_device_id == device_id
    else not (text_is_empty user_id) && env.sender_user_id == user_id

unfoldable pub selected_sender : EnvelopeApis → Bool → Option AuthContext → EnvelopeDto → String
selected_sender apis outgoing auth env =
    let username = session_text auth (λ (a : AuthContext). a.username) in
    let resolved = apis.user_by_id env.sender_user_id in
    let display : String = elim resolved.payload [
      | none ↦ env.sender_user_id
      | some user ↦
          if resolved.ok && not (text_is_empty user.username)
          then user.username
          else env.sender_user_id
    ] in
    if outgoing
    then (if text_is_empty username then "me" else username)
    else if not (text_is_empty env.sender_user_id)
    then display
    else env.sender_user_id

-- Only a summary sets the flag of a conversation with oneself.
unfoldable pub selected_state : UiState → String → SelectionResult → UiState
selected_state ui conversation_id loaded = record {
  selected_conversation_id = conversation_id;
  selected_conversation_is_self_dm =
      if loaded.has_summary
      then loaded.selected_conversation_is_self_dm
      else ui.selected_conversation_is_self_dm;
}

module _ (qt : Qt) (strings : QtText) (base64 : Base64) (apis : EnvelopeApis)
    (auth : Option AuthContext) where
  unfoldable pub selected_plaintext : EnvelopeDto → Bytes
  selected_plaintext env = elim (decrypt_for_ui qt strings base64 env.ciphertext) [
    | some plaintext ↦ qt.to_utf8 plaintext
    | none ↦
        qt.to_utf8
          (append_text "[Encrypted envelope " (append_text (strings.right env.envelope_id 6) "]"))
  ]

  -- The message of an envelope of the selected conversation: the handler has the lines of
  -- `apply_envelope` a second time.
  unfoldable pub selected_message : Bool → EnvelopeDto → Message
  selected_message self_dm env =
      let outgoing = selected_is_outgoing self_dm auth env in
      record {
        message_id = env.envelope_id;
        conversation_id = env.conversation_id;
        sender_user_id = selected_sender apis outgoing auth env;
        sender_device_id = env.sender_device_id;
        server_seq = 0;
        client_created_at_ms = natural env.server_timestamp * 1000;
        server_received_at_ms = natural env.server_timestamp * 1000;
        content_kind = text;
        ciphertext_blob = qt.to_utf8 env.ciphertext;
        plaintext_cache_ciphertext = selected_plaintext env;
        delivery_state = draft;
        is_outgoing = outgoing;
        reply_to_message_id = none;
        sender_key_epoch = pos 0;
      }

  -- The loop over the envelopes; `stores` says of each whether the database stores its message.
  unfoldable pub store_selected :
      (EnvelopeDto → Bool) → Bool → List EnvelopeDto → MessagesTable → MessagesTable
  store_selected stores self_dm [] t = t
  store_selected stores self_dm (env ∷ envelopes) t =
      store_selected stores self_dm envelopes
        (upsert_message (stores env) (selected_message self_dm env) t).1

  -- The call on the service thread.
  unfoldable pub load_selection :
      (String → ℤ → ApiResult EnvelopeBatchResponse)
      → (EnvelopeDto → Bool)
      → Bool
      → String
      → MessagesTable
      → SelectionResult × MessagesTable
  load_selection conversation_envelopes stores runs conversation_id t =
      let summary = accepted (apis.conversation conversation_id) in
      let self_dm =
        is_summary_of_self (session_text auth (λ (a : AuthContext). a.user_id)) summary in
      let batch = accepted (conversation_envelopes conversation_id pending_envelopes_page_size) in
      let t' = store_selected stores self_dm (envelopes_of batch) t in
      (
        record {
          has_summary = has_value summary;
          title = title_of summary;
          type = type_of summary;
          selected_conversation_is_self_dm = self_dm;
          messages = list_conversation_messages runs conversation_id pending_envelopes_page_size t';
        },
        t',
      )

  -- The handler: what is selected then, what the window shows, and the table.
  unfoldable pub select_conversation :
      (String → ℤ → ApiResult EnvelopeBatchResponse)
      → (EnvelopeDto → Bool)
      → Bool
      → UiState
      → String
      → MessagesTable
      → UiState × SelectionResult × MessagesTable
  select_conversation conversation_envelopes stores runs ui conversation_id t =
      let (loaded, t') = load_selection conversation_envelopes stores runs conversation_id t in
      (selected_state ui conversation_id loaded, loaded, t')
