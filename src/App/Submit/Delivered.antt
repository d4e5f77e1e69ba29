-- ===== src/App/Submit/Delivered.antt =====
-- src/bin/Application.cpp: a submitted text on its way from one device to another.
use vox_desktop.Base.{
  ◌≡◌, ◌∙◌, refl, ap, String, string_eq, ◌==◌, ==-self, true, false, is_empty, Option, none, some,
  text_is_empty, arith,
}
use vox_desktop.Base.Texts.{append_filled}
use vox_desktop.Base.Int.{ℤ, pos}
use vox_desktop.Base.Dict.{lookup}
use vox_desktop.Qt.{Qt, QtLaws}
use vox_desktop.Qt.Text.{QtText}
use vox_desktop.Domain.{Message, sent_to_server}
use vox_desktop.Domain.Names.{delivery_state_to_string}
use vox_desktop.Network.{ApiResult, ConversationSummaryDto, SendEnvelopeRequest, EnvelopeDto}
use vox_desktop.Storage.Table.Rows.{lookup-upsert}
use vox_desktop.Storage.Messages.{
  MessageRow, MessagesTable, message_row, set_message, upsert_message,
}
use vox_desktop.Services.Auth.{AuthContext}
use vox_desktop.Services.MessageSend.{
  SendEnv, Outbox, send_request, sent_message, send_with_cache, send_message,
}
use vox_desktop.App.Transport.{Base64, decrypt_for_ui, encrypt_for_transport}
use vox_desktop.App.Transport.RoundTrip.{TransportLaws, decrypt_for_ui-encrypt_for_transport}
use vox_desktop.App.Create.{may_post}
use vox_desktop.App.Envelopes.{
  EnvelopeApis, UiState, is_self_dm, is_outgoing, my_user_id, plaintext_cache, message_of_envelope,
  apply_envelope,
}
use vox_desktop.App.Envelopes.Stored.{envelope_row, apply_envelope-lookup}
use vox_desktop.App.Submit.{Submitted, submitted, submit_message}

-- The envelope that a server makes of a request.
abbrev pub envelope_of : SendEnvelopeRequest → String → ℤ → EnvelopeDto
envelope_of request sender_user_id server_timestamp = record {
  envelope_id = request.envelope_id;
  conversation_id = request.conversation_id;
  sender_user_id = sender_user_id;
  sender_device_id = request.device_id;
  ciphertext = request.ciphertext;
  server_timestamp = server_timestamp;
  envelope_type = request.envelope_type;
  ordering_epoch = request.ordering_epoch;
}

module _ (qt : Qt) (qt_laws : QtLaws qt) (strings : QtText) (base64 : Base64)
    (laws : TransportLaws qt strings base64) where
  -- What `submit_message` asks the server for.
  abbrev pub text_request : SendEnv → String → AuthContext → String → SendEnvelopeRequest
  text_request env conversation_id auth text =
      send_request env conversation_id auth.device_id (encrypt_for_transport qt strings base64 text)
        (pos 0)

  encrypt_for_transport_filled :
      (text : String) → text_is_empty (encrypt_for_transport qt strings base64 text) ≡ false
  unfolding encrypt_for_transport
  encrypt_for_transport_filled text =
      append_filled _ "ox1:" (qt.from_utf8 (base64.encode (qt.to_utf8 text)))

  submit_message-sent :
      (env : SendEnv) (conversation : String → ApiResult ConversationSummaryDto)
      (auth : AuthContext) (selected text : String) (box : Outbox)
      → text_is_empty selected ≡ false
      → text_is_empty auth.device_id ≡ false
      → text_is_empty text ≡ false
      → may_post strings (conversation selected) ≡ true
      → env.runs_message ≡ true
      → (env.send_envelope (text_request env selected auth text)).ok ≡ true
      → submit_message qt strings base64 env conversation (some auth) selected text box ≡ (
        submitted true,
        record {
          messages =
              (upsert_message true
                (sent_message qt env selected auth.device_id
                  (encrypt_for_transport qt strings base64 text)
                  (qt.to_utf8 text)
                  (env.send_envelope (text_request env selected auth text))
                  sent_to_server)
                box.messages).1;
          jobs = box.jobs;
        },
      )
  unfolding submit_message send_message send_with_cache upsert_message
  submit_message-sent env conversation auth selected text box hs hd ht post runs ok =
      let filled = encrypt_for_transport_filled text in rw (hs, post, ht, hd, filled, runs, ok) refl

  upsert_message-fresh :
      (t : MessagesTable) (m : Message)
      → lookup t m.message_id ≡ none
      → lookup (upsert_message true m t).1 m.message_id ≡ some (message_row m)
  unfolding upsert_message
  upsert_message-fresh t m fresh =
      lookup-upsert set_message t m.message_id m.message_id (message_row m)
      ∙ rw (==-self m.message_id, fresh) refl

  plaintext_cache-readable :
      (envelope : EnvelopeDto) (text : String)
      → decrypt_for_ui qt strings base64 envelope.ciphertext ≡ some text
      → plaintext_cache qt strings base64 envelope ≡ qt.to_utf8 text
  plaintext_cache-readable envelope text h = rw (plaintext_cache, h) refl

  -- The sender's own copy, and the copy of another device whose table is `t`.
  pub record IsDelivered (env : SendEnv) (conversation : String → ApiResult ConversationSummaryDto)
      (auth : AuthContext) (selected text : String) (box : Outbox) (apis : EnvelopeApis)
      (ui : UiState) (receiver : Option AuthContext) (sent_at : ℤ) (t : MessagesTable)
      : Type 0 where
    pub sent : MessageRow
    pub received : MessageRow
    pub is_submitted :
        (submit_message qt strings base64 env conversation (some auth) selected text box).0
        ≡ submitted true
    pub is_sent :
        lookup
          (submit_message qt strings base64 env conversation
            (some auth)
            selected
            text
            box).1.messages
          env.envelope_id
        ≡ some sent
    pub sent_text : sent.plaintext_cache_ciphertext ≡ qt.to_utf8 text
    pub sent_state : sent.delivery_state ≡ delivery_state_to_string sent_to_server
    pub is_received :
        lookup
          (apply_envelope qt strings base64 apis ui receiver true
            (envelope_of (text_request env selected auth text) auth.user_id sent_at)
            t)
          env.envelope_id
        ≡ some received
    pub received_text : received.plaintext_cache_ciphertext ≡ qt.to_utf8 text
    pub received_conversation : received.conversation_id ≡ selected
    pub received_incoming : received.is_outgoing ≡ 0

  -- Where Qt keeps its laws, the user is signed in with a device id, may post in the conversation that
  -- is selected and submits a text that is not empty and whose UTF-8 is not, the server takes the
  -- request, and the database stores messages under an id that is new on both devices: the user is
  -- told of success, and the message is stored with the text as sent to the server. Another user's
  -- device that applies the server's envelope of the request, in a conversation that is not one with
  -- oneself, stores the same text in the same conversation, as an incoming message.
  pub submit_message-IsDelivered :
      (env : SendEnv) (conversation : String → ApiResult ConversationSummaryDto)
      (auth : AuthContext) (selected text : String) (box : Outbox) (apis : EnvelopeApis)
      (ui : UiState) (receiver : Option AuthContext) (sent_at : ℤ) (t : MessagesTable)
      → text_is_empty selected ≡ false
      → text_is_empty auth.device_id ≡ false
      → text_is_empty text ≡ false
      → is_empty (qt.to_utf8 text) ≡ false
      → may_post strings (conversation selected) ≡ true
      → env.runs_message ≡ true
      → (env.send_envelope (text_request env selected auth text)).ok ≡ true
      → lookup box.messages env.envelope_id ≡ none
      → lookup t env.envelope_id ≡ none
      → is_self_dm apis ui receiver
          (envelope_of (text_request env selected auth text) auth.user_id sent_at)
        ≡ false
      → (auth.user_id == my_user_id receiver) ≡ false
      → IsDelivered env conversation auth selected text box apis ui receiver sent_at t
  unfolding message_of_envelope is_outgoing
  submit_message-IsDelivered env conversation auth selected text box apis ui receiver sent_at t hs
        hd ht hu post runs ok fresh fresh_there other_dm other_user =
      let request = text_request env selected auth text in
      let envelope = envelope_of request auth.user_id sent_at in
      let message =
        sent_message qt env selected auth.device_id (encrypt_for_transport qt strings base64 text)
          (qt.to_utf8 text) (env.send_envelope request) sent_to_server in
      let done =
        submit_message-sent env conversation auth selected text box hs hd ht post runs ok in
      let readable = decrypt_for_ui-encrypt_for_transport qt qt_laws strings base64 laws text hu in
      record {
        sent = message_row message;
        received = envelope_row qt strings base64 apis ui receiver envelope;
        is_submitted = ap (λ (p : Submitted × Outbox). p.0) done;
        is_sent =
            ap (λ (p : Submitted × Outbox). lookup p.1.messages env.envelope_id) done
            ∙ upsert_message-fresh box.messages message fresh;
        sent_text = refl;
        sent_state = refl;
        is_received =
            apply_envelope-lookup qt strings base64 apis ui receiver envelope t env.envelope_id
            ∙ rw (==-self env.envelope_id, fresh_there) refl;
        received_text = plaintext_cache-readable envelope text readable;
        received_conversation = refl;
        received_incoming = rw (other_dm, other_user) (ground arith);
      }
