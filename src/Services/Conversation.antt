-- ===== src/Services/Conversation.antt =====
-- src/services/ConversationService.cpp, over the clients and the table of conversations.
pub mod Titles
pub mod Refresh
use Prim.Native.String.{◌++◌ as append_text}
use vox_desktop.Base.{
  ℕ, zero, suc, ◌*◌, String, Bool, true, false, not, ◌&&◌, Option, none, some, List, [], ◌∷◌, leb,
  text_is_empty, if◌then◌else◌,
}
use vox_desktop.Base.Int.{ℤ, pos, natural, int_eq, int_beq}
use vox_desktop.Qt.{Qt}
use vox_desktop.Qt.Text.{QtText, join}
use vox_desktop.Domain.{Conversation, ConversationType, dm, group, channel}
use vox_desktop.Network.{
  ApiResult, ConversationSummaryDto, ConversationMemberDto, ConversationMembersResponseDto,
  DirectoryUser,
}
use vox_desktop.Storage.Conversations.{ConversationsTable, upsert_conversation, list_conversations}

abbrev pub conversation_id_suffix_length : ℕ
conversation_id_suffix_length = 6

abbrev pub millis_per_second : ℕ
millis_per_second = 1000

-- The methods of the clients that the service calls.
pub record TitleApis : Type 0 where
  pub list_conversations : ApiResult (List ConversationSummaryDto)
  pub conversation : String → ApiResult ConversationSummaryDto
  pub members : String → ApiResult ConversationMembersResponseDto
  pub user_by_id : String → ApiResult DirectoryUser

-- `static_cast<ConversationType>`. A number without an enumerator is kept as it is in the sources and
-- stored as "dm", like 0.
abbrev pub conversation_type_of : ℤ → ConversationType
conversation_type_of (pos (suc zero)) = group
conversation_type_of (pos (suc (suc zero))) = channel
conversation_type_of _ = dm

-- A text of a successful result, if it is not empty.
abbrev pub filled_of {ℓ} : {A : Type ℓ} → ApiResult A → (A → String) → Option String
filled_of result field = elim result.payload [
  | none ↦ none
  | some found ↦ if result.ok && not (text_is_empty (field found)) then some (field found) else none
]

abbrev pub value_or_text : Option String → String → String
value_or_text none other = other
value_or_text (some found) other = found

abbrev pub joined : List String → Option String
joined [] = none
joined (name ∷ names) = some (join ", " (name ∷ names))

module _ (strings : QtText) where
  unfoldable pub last6 : String → String
  last6 s =
      if leb (strings.size s) conversation_id_suffix_length
      then s
      else strings.right s conversation_id_suffix_length

  -- The loop over the members: at most so many names, of those who have one.
  unfoldable pub member_names : ℕ → List ConversationMemberDto → List String
  member_names zero members = []
  member_names (suc more) [] = []
  member_names (suc more) (m ∷ members) =
      let rest = member_names more members in
      let skipped = member_names (suc more) members in
      if text_is_empty m.username then skipped else m.username ∷ rest

  abbrev pub names_title : Bool → Option ConversationMembersResponseDto → Option String
  names_title ok none = none
  names_title ok (some found) = if ok then joined (member_names 3 found.members) else none

  abbrev pub group_title : TitleApis → ConversationSummaryDto → Option String
  group_title apis dto =
      let members = apis.members dto.conversation_id in names_title members.ok members.payload

  abbrev pub peer_title : TitleApis → Option String → Option String
  peer_title apis none = none
  peer_title apis (some peer) =
      if text_is_empty peer
      then none
      else some (
          value_or_text (filled_of (apis.user_by_id peer) (λ (u : DirectoryUser). u.username))
            (last6 peer))

  abbrev pub numbered : String → ConversationSummaryDto → String
  numbered kind dto = append_text kind (last6 dto.conversation_id)

  -- The title of a channel, a group, or a conversation without a known peer.
  abbrev pub other_title : TitleApis → ConversationSummaryDto → String
  other_title apis dto =
      if int_beq dto.type (pos 2)
      then value_or_text
          (filled_of (apis.conversation dto.conversation_id)
            (λ (d : ConversationSummaryDto). d.title))
          (numbered "Channel " dto)
      else if int_beq dto.type (pos 1)
      then value_or_text (group_title apis dto) (numbered "Group " dto)
      else last6 dto.conversation_id

  unfoldable pub resolve_title : TitleApis → ConversationSummaryDto → String
  resolve_title apis dto =
      if not (text_is_empty (strings.trimmed dto.title))
      then dto.title
      else if int_beq dto.type (pos 0)
      then value_or_text (peer_title apis dto.peer_user_id) (other_title apis dto)
      else other_title apis dto

  -- What is stored of a conversation that the server lists. The fields that the server does not tell
  -- have the values of a new record.
  abbrev pub local_conversation : TitleApis → ConversationSummaryDto → Conversation
  local_conversation apis dto = record {
    conversation_id = dto.conversation_id;
    server_id = "default";
    type = conversation_type_of dto.type;
    title = resolve_title apis dto;
    last_message_at = natural dto.created_at * millis_per_second;
    muted = false;
    pin_rank = pos 0;
    epoch = dto.membership_version;
    unread_count = pos 0;
  }

  module _ (qt : Qt) where
    -- The loop over the list; `runs` says of each conversation whether the database stores it.
    unfoldable pub store_conversations :
        TitleApis
        → (ConversationSummaryDto → Bool)
        → List ConversationSummaryDto
        → ConversationsTable
        → Bool × ConversationsTable
    store_conversations apis runs [] t = (true, t)
    store_conversations apis runs (dto ∷ dtos) t =
        let (stored, t') = upsert_conversation qt (runs dto) (local_conversation apis dto) t in
        let rest = store_conversations apis runs dtos t' in if stored then rest else (false, t')

    unfoldable pub refresh_conversations :
        TitleApis → (ConversationSummaryDto → Bool) → ConversationsTable → Bool × ConversationsTable
    refresh_conversations apis runs t = elim apis.list_conversations.payload [
      | none ↦ (false, t)
      | some dtos ↦
          if not apis.list_conversations.ok
          then (false, t)
          else store_conversations apis runs dtos t
    ]

    unfoldable pub conversations : Bool → ConversationsTable → List Conversation
    conversations runs t = list_conversations qt runs t
