-- ===== src/Network/Parsing.antt =====
-- src/network/ApiDtos.cpp: what the server's JSON is read as (`parseApiError` and the other parsers).
pub mod RoundTrip
use vox_desktop.Base.{
  String, Bool, false, ◌&&◌, not, Option, none, some, ◌>>=◌, List, [], ◌∷◌, if◌then◌else◌,
}
use vox_desktop.Base.Int.{ℤ, pos}
use vox_desktop.Qt.Json.{
  Fields, Items, end, item, value, contains, is_empty_object, is_string, is_double, to_text, to_int,
  to_integer, to_bool, to_array, to_object,
}
use vox_desktop.Network.{
  ApiError, AuthSessionResponse, RefreshResponse, MeResponse, DirectoryUser, DeviceDirectoryEntry,
  ConversationCreateResponse, ConversationSummaryDto, ConversationMemberDto,
  ConversationMembersResponseDto, SendEnvelopeResponse, EnvelopeDto, EnvelopeBatchResponse,
  AttachmentUploadInitResponse, SyncRecordDto, SyncKeyBundleDto,
}

unfoldable pub get_string : Fields → String → Option String
get_string obj key = let v = value obj key in if is_string v then some (to_text v) else none

unfoldable pub get_integer : Fields → String → Option ℤ
get_integer obj key = let v = value obj key in if is_double v then some (to_integer v) else none

-- The loop over an array whose entries must all parse.
unfoldable pub parse_all {ℓ} : {A : Type ℓ} → (Fields → Option A) → Items → Option (List A)
parse_all parse end = some []
parse_all parse (item entry entries) = do
  parsed ← parse (to_object entry)
  rest ← parse_all parse entries
  some (parsed ∷ rest)

-- QJsonValue::toInt, toString, toBool(false), toArray of a field.
abbrev pub int_field : Fields → String → ℤ
int_field obj key = to_int (value obj key) (pos 0)

abbrev pub text_field : Fields → String → String
text_field obj key = to_text (value obj key)

abbrev pub bool_field : Fields → String → Bool
bool_field obj key = to_bool (value obj key) false

abbrev pub array_field : Fields → String → Items
array_field obj key = to_array (value obj key)

unfoldable pub parse_api_error : Fields → Option ApiError
parse_api_error obj =
    let error_obj = to_object (value obj "error") in
    let code_value = value error_obj "code" in
    let msg_value = value error_obj "message" in
    if is_empty_object error_obj
    then none
    else if not (is_double code_value && is_string msg_value)
    then none
    else some (record { code = to_int code_value (pos 0); message = to_text msg_value })

unfoldable pub parse_auth_session_response : Fields → Option AuthSessionResponse
parse_auth_session_response obj = do
  user_id ← get_string obj "user_id"
  access_token ← get_string obj "access_token"
  refresh_token ← get_string obj "refresh_token"
  device_status ← get_string obj "device_status"
  some (record {
    user_id = user_id;
    access_token = access_token;
    refresh_token = refresh_token;
    device_status = device_status;
    sync_key_version = int_field obj "sync_key_version";
  })

unfoldable pub parse_refresh_response : Fields → Option RefreshResponse
parse_refresh_response obj = do
  access_token ← get_string obj "access_token"
  refresh_token ← get_string obj "refresh_token"
  some (record { access_token = access_token; refresh_token = refresh_token })

unfoldable pub parse_me_response : Fields → Option MeResponse
parse_me_response obj = do
  user_id ← get_string obj "user_id"
  username ← get_string obj "username"
  current_device ← get_string obj "current_device_id"
  some (record {
    user_id = user_id;
    username = username;
    current_device_id = current_device;
    sync_key_version = int_field obj "sync_key_version";
  })

unfoldable pub parse_directory_user : Fields → Option DirectoryUser
parse_directory_user obj = do
  user_id ← get_string obj "user_id"
  username ← get_string obj "username"
  some (record { user_id = user_id; username = username })

unfoldable pub parse_device_directory_entry : Fields → Option DeviceDirectoryEntry
parse_device_directory_entry obj = do
  device_id ← get_string obj "device_id"
  identity_key_public ← get_string obj "identity_key_public"
  signed_prekey_public ← get_string obj "signed_prekey_public"
  signed_prekey_signature ← get_string obj "signed_prekey_signature"
  some (record {
    device_id = device_id;
    device_label = text_field obj "device_label";
    identity_key_public = identity_key_public;
    signed_prekey_public = signed_prekey_public;
    signed_prekey_signature = signed_prekey_signature;
  })

unfoldable pub parse_conversation_create_response : Fields → Option ConversationCreateResponse
parse_conversation_create_response obj = do
  conversation_id ← get_string obj "conversation_id"
  some (record { conversation_id = conversation_id })

unfoldable pub parse_conversation_summary_dto : Fields → Option ConversationSummaryDto
parse_conversation_summary_dto obj =
    let membership_version = value obj "membership_version" in
    do
      conversation_id ← get_string obj "conversation_id"
      created_by ← get_string obj "created_by"
      created_at ← get_integer obj "created_at"
      let dto : ConversationSummaryDto = record {
        conversation_id = conversation_id;
        type = int_field obj "type";
        created_by = created_by;
        created_by_username = text_field obj "created_by_username";
        created_at = created_at;
        membership_version = to_int membership_version (pos 0);
        my_role = text_field obj "my_role";
        title = text_field obj "title";
        channel_post_policy = text_field obj "channel_post_policy";
        peer_user_id =
            if contains obj "peer_user_id" then some (text_field obj "peer_user_id") else none;
      }
      (if is_double membership_version then some dto else none)

unfoldable pub parse_conversation_member_dto : Fields → Option ConversationMemberDto
parse_conversation_member_dto obj = do
  user_id ← get_string obj "user_id"
  some (record {
    user_id = user_id;
    username = text_field obj "username";
    role = text_field obj "role";
  })

unfoldable pub parse_conversation_members_response_dto :
    Fields → Option ConversationMembersResponseDto
parse_conversation_members_response_dto obj = do
  conversation_id ← get_string obj "conversation_id"
  members ← parse_all parse_conversation_member_dto (array_field obj "members")
  admins ← parse_all parse_conversation_member_dto (array_field obj "admins")
  subscribers ← parse_all parse_conversation_member_dto (array_field obj "subscribers")
  some (record {
    conversation_id = conversation_id;
    membership_version = int_field obj "membership_version";
    members = members;
    admins = admins;
    subscribers = subscribers;
    subscription_state = text_field obj "subscription_state";
    member_count = int_field obj "member_count";
  })

unfoldable pub parse_send_envelope_response : Fields → Option SendEnvelopeResponse
parse_send_envelope_response obj = do
  envelope_id ← get_string obj "envelope_id"
  server_timestamp ← get_integer obj "server_timestamp"
  some (record {
    envelope_id = envelope_id;
    server_timestamp = server_timestamp;
    delivered_to_count = int_field obj "delivered_to_count";
  })

unfoldable pub parse_envelope_dto : Fields → Option EnvelopeDto
parse_envelope_dto obj = do
  envelope_id ← get_string obj "envelope_id"
  conversation_id ← get_string obj "conversation_id"
  sender_user_id ← get_string obj "sender_user_id"
  sender_device_id ← get_string obj "sender_device_id"
  ciphertext ← get_string obj "ciphertext"
  server_timestamp ← get_integer obj "server_timestamp"
  some (record {
    envelope_id = envelope_id;
    conversation_id = conversation_id;
    sender_user_id = sender_user_id;
    sender_device_id = sender_device_id;
    ciphertext = ciphertext;
    server_timestamp = server_timestamp;
    envelope_type = int_field obj "envelope_type";
    ordering_epoch =
        if contains obj "ordering_epoch" && is_double (value obj "ordering_epoch")
        then some (int_field obj "ordering_epoch")
        else none;
  })

unfoldable pub parse_envelope_batch_response : Fields → Option EnvelopeBatchResponse
parse_envelope_batch_response obj = do
  envelopes ← parse_all parse_envelope_dto (array_field obj "envelopes")
  some (record {
    envelopes = envelopes;
    next_cursor = text_field obj "next_cursor";
    has_more = bool_field obj "has_more";
  })

unfoldable pub parse_attachment_upload_init_response : Fields → Option AttachmentUploadInitResponse
parse_attachment_upload_init_response obj = do
  attachment_id ← get_string obj "attachment_id"
  blob_path ← get_string obj "blob_path"
  some (record { attachment_id = attachment_id; blob_path = blob_path })

unfoldable pub parse_sync_record_dto : Fields → Option SyncRecordDto
parse_sync_record_dto obj = do
  collection ← get_string obj "collection"
  record_id ← get_string obj "record_id"
  ciphertext ← get_string obj "ciphertext"
  some (record {
    collection = collection;
    record_id = record_id;
    version = int_field obj "version";
    ciphertext = ciphertext;
    deleted = bool_field obj "deleted";
  })

unfoldable pub parse_sync_key_bundle_dto : Fields → Option SyncKeyBundleDto
parse_sync_key_bundle_dto obj = do
  wrapped_sync_key ← get_string obj "wrapped_sync_key"
  sync_wrap_salt ← get_string obj "sync_wrap_salt"
  some (record {
    version = int_field obj "version";
    wrapped_sync_key = wrapped_sync_key;
    sync_wrap_salt = sync_wrap_salt;
    sync_wrap_params = to_object (value obj "sync_wrap_params");
  })
