-- ===== src/App/ChatList.antt =====
-- src/bin/Application.cpp: the order of the chats in the window after an envelope or a message.
pub mod Ordered
use vox_desktop.Base.{ℕ, String, string_eq, ◌==◌, Bool, not, List, [], ◌∷◌, map, ltb, if◌then◌else◌}
use vox_desktop.Base.Int.{ltb_int, int_beq}
use vox_desktop.Domain.{Conversation}
use vox_desktop.Storage.Table.{order_by}

-- The loop that sets `lastMessageAt`.
abbrev pub bumped : ℕ → String → Conversation → Conversation
bumped now conversation_id c =
    if c.conversation_id == conversation_id then record c { last_message_at = now } else c

-- The test of the sort: pinned chats first, later messages first among those of one rank.
abbrev pub shown_before : Conversation → Conversation → Bool
shown_before a b =
    if not (int_beq a.pin_rank b.pin_rank)
    then ltb_int b.pin_rank a.pin_rank
    else ltb b.last_message_at a.last_message_at

unfoldable pub chat_list : ℕ → String → List Conversation → List Conversation
chat_list now conversation_id list = order_by shown_before (map (bumped now conversation_id) list)
