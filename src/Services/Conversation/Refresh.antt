-- ===== src/Services/Conversation/Refresh.antt =====
-- src/services/ConversationService.cpp: what a refresh leaves in the database.
use vox_desktop.Base.{
  zero, suc, ◌*◌, ◌≡◌, ◌∙◌, refl, ap, String, string_eq, ◌==◌, true, Option, some, List, [], ◌∷◌,
  if◌then◌else◌, arith,
}
use vox_desktop.Base.Dict.{lookup, insert, lookup-insert}
use vox_desktop.Qt.{Qt}
use vox_desktop.Qt.Text.{QtText}
use vox_desktop.Base.Int.{ℤ, pos, negsuc, natural}
use vox_desktop.Domain.Names.{conversation_type_to_string}
use vox_desktop.Domain.{Conversation}
use vox_desktop.Network.{ConversationSummaryDto}
use vox_desktop.Storage.Table.{upsert}
use vox_desktop.Storage.Table.Rows.{merged_excluded}
use vox_desktop.Storage.Conversations.{
  ConversationRow, ConversationsTable, conversation_row, upsert_conversation,
}
use vox_desktop.Services.Conversation.{
  TitleApis, conversation_type_of, resolve_title, local_conversation, store_conversations,
  refresh_conversations,
}

-- The name of a type's number.
abbrev pub listed_type : ℤ → String
listed_type (pos (suc zero)) = "group"
listed_type (pos (suc (suc zero))) = "channel"
listed_type _ = "dm"

listed_type-eq :
    (type : ℤ) → conversation_type_to_string (conversation_type_of type) ≡ listed_type type
unfolding conversation_type_to_string
listed_type-eq (pos zero) = refl
listed_type-eq (pos (suc zero)) = refl
listed_type-eq (pos (suc (suc zero))) = refl
listed_type-eq (pos (suc (suc (suc n)))) = refl
listed_type-eq (negsuc n) = refl

module _ (strings : QtText) (qt : Qt) (apis : TitleApis) where
  -- The row of a conversation that the server lists: not muted, not pinned and without a draft.
  abbrev pub listed_row : ConversationSummaryDto → ConversationRow
  listed_row dto = record {
    conversation_id = dto.conversation_id;
    server_id = "default";
    type = listed_type dto.type;
    title_ciphertext = qt.to_utf8 (resolve_title strings apis dto);
    last_message_at_ms = natural dto.created_at * 1000;
    last_sort_key = natural dto.created_at * 1000;
    mute_state = 0;
    pin_rank = pos 0;
    draft_ciphertext = [];
    epoch = dto.membership_version;
  }

  conversation_row-eq-listed_row :
      (dto : ConversationSummaryDto)
      → conversation_row qt (local_conversation strings apis dto) ≡ listed_row dto
  conversation_row-eq-listed_row dto =
      ap (λ (t : String). record (listed_row dto) { type = t }) (listed_type-eq dto.type)

  -- The row of the last conversation in a list with an id, or else the row that was there.
  pub last_listed :
      String → List ConversationSummaryDto → Option ConversationRow → Option ConversationRow
  last_listed id [] old = old
  last_listed id (dto ∷ dtos) old =
      last_listed id dtos (if dto.conversation_id == id then some (listed_row dto) else old)

  upsert_conversation-lookup :
      (c : Conversation) (t : ConversationsTable) (id : String)
      → lookup (upsert_conversation qt true c t).1 id
        ≡ (if c.conversation_id == id then some (conversation_row qt c) else lookup t id)
  unfolding upsert_conversation upsert
  upsert_conversation-lookup c t id =
      ap (λ (r : ConversationRow). lookup (insert t c.conversation_id r) id)
        (merged_excluded (lookup t c.conversation_id) (conversation_row qt c))
      ∙ lookup-insert t c.conversation_id id (conversation_row qt c)

  store_conversations-step :
      (dto : ConversationSummaryDto) (dtos : List ConversationSummaryDto) (t : ConversationsTable)
      → store_conversations strings qt apis (λ d. true) (dto ∷ dtos) t
        ≡ store_conversations strings qt apis
            (λ d. true)
            dtos
            (upsert_conversation qt true (local_conversation strings apis dto) t).1
  unfolding store_conversations upsert_conversation
  store_conversations-step dto dtos t = refl

  store_conversations-last :
      (dtos : List ConversationSummaryDto) (t : ConversationsTable) (id : String)
      → let (stored, t') = store_conversations strings qt apis (λ d. true) dtos t in
        (stored ≡ true) × (lookup t' id ≡ last_listed id dtos (lookup t id))
  unfolding last_listed
  store_conversations-last [] t id = unfold store_conversations in (refl, refl)
  store_conversations-last (dto ∷ dtos) t id =
      let c = local_conversation strings apis dto in
      let (stored, found) = store_conversations-last dtos (upsert_conversation qt true c t).1 id in
      rw (store_conversations-step dto dtos t) (
        stored,
        found
            ∙ ap (last_listed id dtos)
                (rw (← conversation_row-eq-listed_row dto) (upsert_conversation-lookup c t id)),
      )

  -- A refresh from a server that lists its conversations, in a database that stores each, returns
  -- true. Under every id there is then the row of the last listed conversation with that id, in
  -- which nothing is left of the row that was there: it is not muted, not pinned and has no draft;
  -- under the other ids the rows are what they were.
  pub refresh_conversations-last :
      (dtos : List ConversationSummaryDto) (t : ConversationsTable) (id : String)
      → apis.list_conversations.ok ≡ true
      → apis.list_conversations.payload ≡ some dtos
      → let (done, t') = refresh_conversations strings qt apis (λ d. true) t in
        (done ≡ true) × (lookup t' id ≡ last_listed id dtos (lookup t id))
  unfolding refresh_conversations
  refresh_conversations-last dtos t id ok listed =
      let same : refresh_conversations strings qt apis (λ d. true) t
          ≡ store_conversations strings qt apis (λ d. true) dtos t =
        ground arith in
      rw same (store_conversations-last dtos t id)
