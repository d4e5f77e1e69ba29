-- ===== src/App/ChatList/Ordered.antt =====
-- src/bin/Application.cpp: the list of chats stays complete and is in the order of its test.
use vox_desktop.Base.{◌≡◌, refl, String, true, false, List, ℕ, map, arith}
use vox_desktop.Base.Int.{ℤ, pos, negsuc, ltb_int, int_beq}
use mathlib.Core.List.{Perm}
use vox_desktop.Domain.{Conversation}
use vox_desktop.Storage.Table.Order.{IsOrdered, order_by-IsOrdered, order_by-Perm}
use vox_desktop.App.ChatList.{bumped, shown_before, chat_list}

ltb_int_asymmetric : (a b : ℤ) → ltb_int a b ≡ true → ltb_int b a ≡ false
ltb_int_asymmetric (pos a) (pos b) h = ground arith
ltb_int_asymmetric (pos a) (negsuc b) h = absurd (ground arith)
ltb_int_asymmetric (negsuc a) (pos b) h = refl
ltb_int_asymmetric (negsuc a) (negsuc b) h = ground arith

int_beq_symmetric : (a b : ℤ) → int_beq a b ≡ int_beq b a
int_beq_symmetric (pos a) (pos b) = ground arith
int_beq_symmetric (pos a) (negsuc b) = refl
int_beq_symmetric (negsuc a) (pos b) = refl
int_beq_symmetric (negsuc a) (negsuc b) = ground arith

shown_before_asymmetric : (a b : Conversation) → shown_before a b ≡ true → shown_before b a ≡ false
shown_before_asymmetric a b h =
    let same = int_beq_symmetric a.pin_rank b.pin_rank in
    let ranks = ltb_int_asymmetric b.pin_rank a.pin_rank in ground (arith, same, ranks)

-- The window gets the chats of the list, the one of the conversation with the new time, pinned ones
-- first and later ones first among those of a rank.
chat_list-IsOrdered :
    (now : ℕ) (conversation_id : String) (list : List Conversation)
    → IsOrdered shown_before (chat_list now conversation_id list)
      × Perm (chat_list now conversation_id list) (map (bumped now conversation_id) list)
unfolding chat_list
chat_list-IsOrdered now conversation_id list = (
  order_by-IsOrdered shown_before shown_before_asymmetric (map (bumped now conversation_id) list),
  order_by-Perm shown_before (map (bumped now conversation_id) list),
)
