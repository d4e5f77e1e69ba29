-- ===== src/App/Create.antt =====
-- src/bin/Application.cpp: the creation of conversations, and the right to post in a channel.
pub mod Members
use Prim.Native.String.{◌++◌ as append_text}
use vox_desktop.Base.{
  ℕ, String, string_eq, ◌==◌, Bool, true, false, not, ◌&&◌, ◌||◌, Option, none, some, List, [], ◌∷◌,
  if◌then◌else◌,
}
use vox_desktop.Base.Int.{pos, int_beq}
use vox_desktop.Qt.Text.{QtText}
use vox_desktop.Network.{
  ApiResult, ConversationCreateRequest, ConversationCreateResponse, ConversationSummaryDto,
  DirectoryUser,
}
use vox_desktop.Services.Auth.{AuthContext}

pub record CreateApis : Type 0 where
  pub user_by_username : String → ApiResult DirectoryUser
  pub create_conversation : ConversationCreateRequest → ApiResult ConversationCreateResponse

-- CreateDmResult
pub record CreateDmResult : Type 0 where
  pub user_found : Bool
  pub created : Bool
  pub conversation_id : String

-- CreateGroupResult and CreateChannelResult
pub record CreateResult : Type 0 where
  pub authenticated : Bool
  pub created : Bool
  pub error : String
  pub conversation_id : String

-- The payload of a successful result.
abbrev pub accepted {ℓ} : {A : Type ℓ} → ApiResult A → Option A
accepted result = if result.ok then result.payload else none

abbrev pub dm_request : String → ConversationCreateRequest
dm_request peer_user_id = record {
  type = "dm";
  peer_user_id = peer_user_id;
  members = [];
  admins = [];
  subscribers = [];
}

unfoldable pub create_dm : CreateApis → String → CreateDmResult
create_dm apis username = elim (accepted (apis.user_by_username username)) [
  | none ↦ record { user_found = false; created = false; conversation_id = "" }
  | some user ↦ elim (accepted (apis.create_conversation (dm_request user.user_id))) [
    | none ↦ record { user_found = true; created = false; conversation_id = "" }
    | some made ↦ record {
      user_found = true;
      created = true;
      conversation_id = made.conversation_id;
    }
  ]
]

-- The loop over the names: the ids, or the first name that is not resolved.
pub data Resolved : Type 0 where
  unresolved : String → Resolved
  resolved : List String → Resolved

abbrev pub add_id : Option DirectoryUser → String → Resolved → Resolved
add_id none name rest = unresolved name
add_id (some user) name (unresolved later) = unresolved later
add_id (some user) name (resolved ids) = resolved (user.user_id ∷ ids)

unfoldable pub resolve_ids : CreateApis → List String → Resolved
resolve_ids apis [] = resolved []
resolve_ids apis (name ∷ names) =
    add_id (accepted (apis.user_by_username name)) name (resolve_ids apis names)

abbrev pub is_listed : String → List String → Bool
is_listed id [] = false
is_listed id (other ∷ ids) = (id == other) || is_listed id ids

-- QVector::removeDuplicates keeps the first of each.
unfoldable pub keep_new : List String → List String → List String
keep_new seen [] = []
keep_new seen (id ∷ ids) =
    let longer = keep_new (id ∷ seen) ids in
    let same = keep_new seen ids in if is_listed id seen then same else id ∷ longer

unfoldable pub remove_duplicates : List String → List String
remove_duplicates ids = keep_new [] ids

-- What the two requests have apart: the ids as members of a group, or as admins of a channel.
abbrev pub group_request : List String → ConversationCreateRequest
group_request ids = record {
  type = "group";
  peer_user_id = "";
  members = ids;
  admins = [];
  subscribers = [];
}

abbrev pub channel_request : List String → ConversationCreateRequest
channel_request ids = record {
  type = "channel";
  peer_user_id = "";
  members = [];
  admins = ids;
  subscribers = [];
}

abbrev pub refused : Bool → String → CreateResult
refused authenticated error = record {
  authenticated = authenticated;
  created = false;
  error = error;
  conversation_id = "";
}

abbrev pub create_with :
    CreateApis
    → String
    → Resolved
    → (List String → ConversationCreateRequest)
    → String
    → CreateResult
create_with apis user_id (unresolved name) request failure =
    refused true (append_text "Could not resolve '" (append_text name "'"))
create_with apis user_id (resolved ids) request failure =
    elim (accepted (apis.create_conversation (request (remove_duplicates (user_id ∷ ids))))) [
      | none ↦ refused true failure
      | some made ↦ record {
        authenticated = true;
        created = true;
        error = "";
        conversation_id = made.conversation_id;
      }
    ]

unfoldable pub create_group : CreateApis → Option AuthContext → List String → CreateResult
create_group apis none usernames = refused false ""
create_group apis (some auth) usernames =
    create_with apis auth.user_id (resolve_ids apis usernames) group_request
      "Could not create group."

unfoldable pub create_channel : CreateApis → Option AuthContext → List String → CreateResult
create_channel apis none admin_usernames = refused false ""
create_channel apis (some auth) admin_usernames =
    create_with apis auth.user_id (resolve_ids apis admin_usernames) channel_request
      "Could not create channel."

-- Whether `sendMessageSubmitted` goes on to send, by what the server tells of the conversation.
unfoldable pub may_post : QtText → ApiResult ConversationSummaryDto → Bool
may_post strings conv_dto = elim (accepted conv_dto) [
  | none ↦ true
  | some dto ↦
      let my_role = strings.to_lower dto.my_role in
      not (int_beq dto.type (pos 2)) || my_role == "owner" || my_role == "admin"
]
