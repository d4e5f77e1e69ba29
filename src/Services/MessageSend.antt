-- ===== src/Services/MessageSend.antt =====
-- src/services/MessageSendService.cpp, over the tables of messages and jobs.
pub mod Delivery
use vox_desktop.Base.{
  ℕ, ◌+◌, ◌*◌, String, Bool, true, false, ◌||◌, ◌&&◌, Bytes, Option, none, some, [], text_is_empty,
  if◌then◌else◌,
}
use vox_desktop.Base.Int.{ℤ, pos, natural}
use vox_desktop.Qt.{Qt}
use vox_desktop.Domain.{Message, DeliveryState, text, queued, sent_to_server}
use vox_desktop.Network.{ApiResult, SendEnvelopeRequest, SendEnvelopeResponse}
use vox_desktop.Storage.Messages.{MessagesTable, upsert_message}
use vox_desktop.Storage.Jobs.{JobsTable, enqueue_job}

abbrev pub millis_per_second : ℕ
millis_per_second = 1000

abbrev pub message_retry_delay_ms : ℕ
message_retry_delay_ms = 1000

-- What happens around a call: the new UUID, the server's answer, the two readings of the clock, and
-- whether the database runs each statement.
pub record SendEnv : Type 0 where
  pub envelope_id : String
  pub send_envelope : SendEnvelopeRequest → ApiResult SendEnvelopeResponse
  pub created_ms : ℕ
  pub queued_ms : ℕ
  pub runs_message : Bool
  pub runs_job : Bool

pub record Outbox : Type 0 where
  pub messages : MessagesTable
  pub jobs : JobsTable

abbrev pub received_ms : Option SendEnvelopeResponse → ℕ
received_ms none = 0
received_ms (some response) = natural response.server_timestamp * millis_per_second

abbrev pub send_request : SendEnv → String → String → String → ℤ → SendEnvelopeRequest
send_request env conversation_id device_id ciphertext envelope_type = record {
  device_id = device_id;
  conversation_id = conversation_id;
  ciphertext = ciphertext;
  envelope_id = env.envelope_id;
  envelope_type = envelope_type;
  ordering_epoch = none;
}

module _ (qt : Qt) where
  -- The message as it is stored, over the plaintext cache and the delivery state.
  abbrev pub sent_message :
      SendEnv
      → String
      → String
      → String
      → Bytes
      → ApiResult SendEnvelopeResponse
      → DeliveryState
      → Message
  sent_message env conversation_id device_id ciphertext cache sent delivery_state = record {
    message_id = env.envelope_id;
    conversation_id = conversation_id;
    sender_user_id = "me";
    sender_device_id = device_id;
    server_seq = 0;
    client_created_at_ms = env.created_ms;
    server_received_at_ms = received_ms sent.payload;
    content_kind = text;
    ciphertext_blob = qt.to_utf8 ciphertext;
    plaintext_cache_ciphertext = cache;
    delivery_state = delivery_state;
    is_outgoing = true;
    reply_to_message_id = none;
    sender_key_epoch = pos 0;
  }

  -- What both functions do once their guards let the call through.
  unfoldable pub send_with_cache :
      SendEnv → String → String → String → ℤ → Bytes → Outbox → Bool × Outbox
  send_with_cache env conversation_id device_id ciphertext envelope_type cache box =
      let sent =
        env.send_envelope (send_request env conversation_id device_id ciphertext envelope_type) in
      let message = sent_message env conversation_id device_id ciphertext cache sent in
      let (kept, messages) =
        upsert_message env.runs_message (message sent_to_server) box.messages in
      let (stored, waiting) = upsert_message env.runs_message (message queued) box.messages in
      let (enqueued, jobs) =
        enqueue_job env.runs_job "send_message" (qt.to_utf8 ciphertext)
          (env.queued_ms + message_retry_delay_ms) box.jobs in
      if sent.ok
      then (kept, record { messages = messages; jobs = box.jobs })
      else (stored && enqueued, record { messages = waiting; jobs = jobs })

  unfoldable pub send_ciphertext : SendEnv → String → String → String → ℤ → Outbox → Bool × Outbox
  send_ciphertext env conversation_id device_id ciphertext envelope_type box =
      if text_is_empty conversation_id || text_is_empty device_id || text_is_empty ciphertext
      then (false, box)
      else send_with_cache env conversation_id device_id ciphertext envelope_type [] box

  unfoldable pub send_message :
      SendEnv → String → String → String → String → ℤ → Outbox → Bool × Outbox
  send_message env conversation_id device_id plaintext ciphertext envelope_type box =
      if text_is_empty plaintext
      then (false, box)
      else if text_is_empty conversation_id || text_is_empty device_id || text_is_empty ciphertext
      then (false, box)
      else send_with_cache env conversation_id device_id ciphertext envelope_type
          (qt.to_utf8 plaintext) box
