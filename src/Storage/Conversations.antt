-- ===== src/Storage/Conversations.antt =====
-- src/storage/Repositories.cpp, `SqlConversationsRepository`.
pub mod Listing
use vox_desktop.Base.{
  ℕ, Bool, false, true, not, ◌||◌, ◌&&◌, String, string_eq, Bytes, List, [], ◌∷◌, ltb, nat_beq,
  value_or, map, if◌then◌else◌,
}
use vox_desktop.Base.Int.{ℤ, pos, ltb_int, int_beq}
use vox_desktop.Base.Dict.{Dict}
use vox_desktop.Qt.{Qt}
use vox_desktop.Domain.{Conversation, dm}
use vox_desktop.Domain.Names.{conversation_type_to_string, conversation_type_from_string}
use vox_desktop.Storage.Table.{rows, upsert, order_by}

pub record ConversationRow : Type 0 where
  pub conversation_id : String
  pub server_id : String
  pub type : String
  pub title_ciphertext : Bytes
  pub last_message_at_ms : ℕ
  pub last_sort_key : ℕ
  pub mute_state : ℕ
  pub pin_rank : ℤ
  pub draft_ciphertext : Bytes
  pub epoch : ℤ

abbrev pub ConversationsTable : Type 0
ConversationsTable = Dict String ConversationRow

-- ORDER BY pin_rank DESC, last_message_at_ms DESC
abbrev pub listed_before : ConversationRow → ConversationRow → Bool
listed_before a b =
    ltb_int b.pin_rank a.pin_rank
    || (int_beq b.pin_rank a.pin_rank && ltb b.last_message_at_ms a.last_message_at_ms)

module _ (qt : Qt) where
  abbrev pub conversation_row : Conversation → ConversationRow
  conversation_row c = record {
    conversation_id = c.conversation_id;
    server_id = c.server_id;
    type = conversation_type_to_string c.type;
    title_ciphertext = qt.to_utf8 c.title;
    last_message_at_ms = c.last_message_at;
    last_sort_key = c.last_message_at;
    mute_state = if c.muted then 1 else 0;
    pin_rank = c.pin_rank;
    draft_ciphertext = [];
    epoch = c.epoch;
  }

  abbrev pub conversation_of : ConversationRow → Conversation
  conversation_of r = record {
    conversation_id = r.conversation_id;
    server_id = r.server_id;
    type = value_or (conversation_type_from_string r.type) dm;
    title = qt.from_utf8 r.title_ciphertext;
    last_message_at = r.last_message_at_ms;
    muted = not (nat_beq r.mute_state 0);
    pin_rank = r.pin_rank;
    epoch = r.epoch;
    unread_count = pos 0;
  }

  unfoldable pub upsert_conversation :
      Bool → Conversation → ConversationsTable → Bool × ConversationsTable
  upsert_conversation runs c t =
      if runs
      then (true, upsert (λ old excluded. excluded) t c.conversation_id (conversation_row c))
      else (false, t)

  unfoldable pub list_conversations : Bool → ConversationsTable → List Conversation
  list_conversations runs t =
      if runs then map conversation_of (order_by listed_before (rows t)) else []
