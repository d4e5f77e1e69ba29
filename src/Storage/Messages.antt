-- ===== src/Storage/Messages.antt =====
-- src/storage/Repositories.cpp, `SqlMessagesRepository`.
pub mod Listing
use vox_desktop.Base.{
  ℕ, Bool, false, true, not, String, string_eq, ◌==◌, Bytes, Option, none, some, List, [], ltb,
  nat_beq, value_or, text_is_empty, take, map, if◌then◌else◌,
}
use vox_desktop.Base.Int.{ℤ, pos, negsuc}
use vox_desktop.Base.Dict.{Dict}
use vox_desktop.Domain.{Message, text, queued}
use vox_desktop.Domain.Names.{
  content_kind_to_string, content_kind_from_string, delivery_state_to_string,
  delivery_state_from_string,
}
use vox_desktop.Storage.Table.{rows, upsert, keep, order_by}

pub record MessageRow : Type 0 where
  pub message_id : String
  pub conversation_id : String
  pub sender_user_id : String
  pub sender_device_id : String
  pub server_seq : ℕ
  pub client_created_at_ms : ℕ
  pub server_received_at_ms : ℕ
  pub content_kind : String
  pub ciphertext_blob : Bytes
  pub plaintext_cache_ciphertext : Bytes
  pub delivery_state : String
  pub read_state : String
  pub is_outgoing : ℕ
  pub reply_to_message_id : String
  pub sender_key_epoch : ℤ

abbrev pub MessagesTable : Type 0
MessagesTable = Dict String MessageRow

abbrev pub message_row : Message → MessageRow
message_row m = record {
  message_id = m.message_id;
  conversation_id = m.conversation_id;
  sender_user_id = m.sender_user_id;
  sender_device_id = m.sender_device_id;
  server_seq = m.server_seq;
  client_created_at_ms = m.client_created_at_ms;
  server_received_at_ms = m.server_received_at_ms;
  content_kind = content_kind_to_string m.content_kind;
  ciphertext_blob = m.ciphertext_blob;
  plaintext_cache_ciphertext = m.plaintext_cache_ciphertext;
  delivery_state = delivery_state_to_string m.delivery_state;
  read_state = "unread";
  is_outgoing = if m.is_outgoing then 1 else 0;
  reply_to_message_id = value_or m.reply_to_message_id "";
  sender_key_epoch = m.sender_key_epoch;
}

abbrev pub set_message : MessageRow → MessageRow → MessageRow
set_message old excluded = record old {
  sender_user_id = excluded.sender_user_id;
  sender_device_id = excluded.sender_device_id;
  client_created_at_ms = excluded.client_created_at_ms;
  server_received_at_ms = excluded.server_received_at_ms;
  ciphertext_blob = excluded.ciphertext_blob;
  plaintext_cache_ciphertext = excluded.plaintext_cache_ciphertext;
  delivery_state = excluded.delivery_state;
  is_outgoing = excluded.is_outgoing;
}

unfoldable pub upsert_message : Bool → Message → MessagesTable → Bool × MessagesTable
upsert_message runs m t =
    if runs then (true, upsert set_message t m.message_id (message_row m)) else (false, t)

abbrev pub message_of : MessageRow → Message
message_of r = record {
  message_id = r.message_id;
  conversation_id = r.conversation_id;
  sender_user_id = r.sender_user_id;
  sender_device_id = r.sender_device_id;
  server_seq = r.server_seq;
  client_created_at_ms = r.client_created_at_ms;
  server_received_at_ms = r.server_received_at_ms;
  content_kind = value_or (content_kind_from_string r.content_kind) text;
  ciphertext_blob = r.ciphertext_blob;
  plaintext_cache_ciphertext = r.plaintext_cache_ciphertext;
  delivery_state = value_or (delivery_state_from_string r.delivery_state) queued;
  is_outgoing = not (nat_beq r.is_outgoing 0);
  reply_to_message_id =
      if text_is_empty r.reply_to_message_id then none else some r.reply_to_message_id;
  sender_key_epoch = r.sender_key_epoch;
}

abbrev pub created_earlier : MessageRow → MessageRow → Bool
created_earlier a b = ltb a.client_created_at_ms b.client_created_at_ms

-- LIMIT: a negative number is no limit.
abbrev pub limited : ℤ → List MessageRow → List MessageRow
limited (negsuc n) rs = rs
limited (pos n) rs = take n rs

unfoldable pub list_conversation_messages : Bool → String → ℤ → MessagesTable → List Message
list_conversation_messages runs conversation_id limit t =
    if runs
    then map message_of (
        limited limit (
          order_by created_earlier
            (keep (λ (r : MessageRow). r.conversation_id == conversation_id) (rows t))))
    else []
