-- ===== src/Storage/Conversations/Listing.antt =====
-- src/storage/Repositories.cpp: what `listConversations` returns after `upsertConversation`.
use vox_desktop.Base.{
  ◌≡◌, refl, Bool, true, false, ◌||◌, ◌&&◌, Bool-cases, inl, inr, string_eq, ◌∷◌, ltb, flag_read,
  subst, arith,
}
use mathlib.Core.List.{Perm}
use vox_desktop.Base.Int.{ℤ, pos, negsuc, ltb_int, int_beq, int_beq_iff}
use vox_desktop.Base.Dict.{remove}
use vox_desktop.Qt.{Qt, QtLaws}
use vox_desktop.Domain.{Conversation}
use vox_desktop.Domain.Names.Codec.{conversation_type-round_trip}
use vox_desktop.Storage.Table.{rows, upsert, order_by}
use vox_desktop.Storage.Table.Rows.{IsTable, upsert-IsTable, upsert-Perm, merged_excluded}
use vox_desktop.Storage.Table.Order.{
  IsOrdered, IsAsymmetric, order_by-IsOrdered, map-IsOrdered, listed-cons,
}
use vox_desktop.Storage.Conversations.{
  ConversationRow, ConversationsTable, listed_before, conversation_row, conversation_of,
  upsert_conversation, list_conversations,
}

-- Pinned conversations first, by falling rank, then by falling time of the last message.
abbrev pub stands_before : Conversation → Conversation → Bool
stands_before a b =
    ltb_int b.pin_rank a.pin_rank
    || (int_beq b.pin_rank a.pin_rank && ltb b.last_message_at a.last_message_at)

abbrev pub IsConversations : ConversationsTable → Type 0
IsConversations t = IsTable (λ (r : ConversationRow). r.conversation_id) t

rank_asym :
    (a b : ℤ)
    → ltb_int a b ≡ true
    → (ltb_int b a ≡ false) × (int_beq a b ≡ false) × (int_beq b a ≡ false)
rank_asym (pos a) (pos b) h = ground arith
rank_asym (pos a) (negsuc b) h = ground arith
rank_asym (negsuc a) (pos b) h = ground arith
rank_asym (negsuc a) (negsuc b) h = ground arith

listed_before-IsAsymmetric : IsAsymmetric listed_before
listed_before-IsAsymmetric a b h = elim (Bool-cases (ltb_int b.pin_rank a.pin_rank)) [
  | inl higher ↦ let (x, y, z) = rank_asym b.pin_rank a.pin_rank higher in ground arith
  | inr level ↦ ground (arith, int_beq_iff b.pin_rank a.pin_rank, int_beq_iff a.pin_rank b.pin_rank)
]

module _ (qt : Qt) (qt_laws : QtLaws qt) where
  read_back :
      (c : Conversation)
      → conversation_of qt (conversation_row qt c) ≡ record c { unread_count = pos 0 }
  read_back c =
      rw (conversation_type-round_trip c.type, qt_laws.utf8_round_trip c.title, flag_read c.muted)
        refl

  -- Where Qt keeps its laws, and in a table with each row once, under its key: after
  -- `upsertConversation` has run, `listConversations` returns the conversation as it was given, but
  -- for its unread count, which is 0, and the conversations under the other ids, once each, by
  -- falling pin rank and then falling time of the last message.
  list_conversations-upsert :
      (c : Conversation) (t : ConversationsTable)
      → IsConversations t
      → let (done, t') = upsert_conversation qt true c t in
        (done ≡ true)
        × IsConversations t'
        × IsOrdered stands_before (list_conversations qt true t')
        × Perm (list_conversations qt true t') (
            record c { unread_count = pos 0 }
            ∷ list_conversations qt true (remove t c.conversation_id))
  unfolding upsert_conversation list_conversations
  list_conversations-upsert c t s =
      let t' : ConversationsTable =
        upsert (λ old excluded. excluded) t c.conversation_id (conversation_row qt c) in
      let rest : ConversationsTable = remove t c.conversation_id in
      let table : IsConversations t' =
        upsert-IsTable (λ old excluded. excluded) (λ (r : ConversationRow). r.conversation_id) t
          (conversation_row qt c) (λ old new h. refl) s in
      (
        refl,
        table,
        map-IsOrdered (conversation_of qt) stands_before (order_by listed_before (rows t'))
            (order_by-IsOrdered listed_before listed_before-IsAsymmetric (rows t')),
        subst
            (λ (x : Conversation).
              Perm (list_conversations qt true t') (x ∷ list_conversations qt true rest))
            (read_back c)
            (listed-cons (conversation_of qt) listed_before (conversation_row qt c) (rows t')
              (rows rest)
              (subst (λ (r : ConversationRow). Perm (rows t') (r ∷ rows rest))
                (merged_excluded _ (conversation_row qt c))
                (upsert-Perm (λ old excluded. excluded) t c.conversation_id (conversation_row qt c)
                  s.distinct))),
      )
