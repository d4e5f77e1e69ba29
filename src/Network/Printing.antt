-- ===== src/Network/Printing.antt =====
-- src/network/ApiDtos.cpp: the JSON of the requests (`toJson`).
use vox_desktop.Base.{
  String, string_eq, ◌==◌, text_is_empty, none, some, List, [], ◌∷◌, if◌then◌else◌,
}
use vox_desktop.Base.Int.{pos}
use vox_desktop.Qt.Json.{Fields, nil, Items, end, item, text, number, bool, array, object, insert}
use vox_desktop.Network.{
  RegisterRequest, LoginRequest, RefreshRequest, ConversationCreateRequest, SendEnvelopeRequest,
  AttachmentUploadInitRequest, SyncRecordDto,
}

unfoldable pub register_request_to_json : RegisterRequest → Fields
register_request_to_json req =
    let json = insert nil "username" (text req.username) in
    let json = insert json "password_derived_value" (text req.password_derived_value) in
    let json = insert json "device_id" (text req.device_id) in
    let json = insert json "device_label" (text req.device_label) in
    let json = insert json "identity_key_public" (text req.identity_key_public) in
    let json = insert json "signed_prekey_public" (text req.signed_prekey_public) in
    let json = insert json "signed_prekey_signature" (text req.signed_prekey_signature) in
    let json = insert json "wrapped_sync_key" (text req.wrapped_sync_key) in
    let json = insert json "sync_wrap_salt" (text req.sync_wrap_salt) in
    insert json "sync_wrap_params" (object req.sync_wrap_params)

unfoldable pub login_request_to_json : LoginRequest → Fields
login_request_to_json req =
    let json = insert nil "username" (text req.username) in
    let json = insert json "password_derived_value" (text req.password_derived_value) in
    let json = insert json "device_id" (text req.device_id) in
    let json =
      if text_is_empty req.device_label
      then json
      else insert json "device_label" (text req.device_label) in
    let keys = insert json "identity_key_public" (text req.identity_key_public) in
    let keys = insert keys "signed_prekey_public" (text req.signed_prekey_public) in
    let keys = insert keys "signed_prekey_signature" (text req.signed_prekey_signature) in
    if text_is_empty req.identity_key_public then json else keys

unfoldable pub refresh_request_to_json : RefreshRequest → Fields
refresh_request_to_json req =
    let json = insert nil "refresh_token" (text req.refresh_token) in
    insert json "device_id" (text req.device_id)

-- The array of the loops over members, admins and subscribers.
abbrev pub text_items : List String → Items
text_items [] = end
text_items (s ∷ rest) = item (text s) (text_items rest)

abbrev pub insert_filled : Fields → String → List String → Fields
insert_filled json key [] = json
insert_filled json key (s ∷ rest) = insert json key (array (text_items (s ∷ rest)))

unfoldable pub conversation_create_request_to_json : ConversationCreateRequest → Fields
conversation_create_request_to_json req =
    let json = insert nil "type" (text req.type) in
    let json =
      if req.type == "dm" then insert json "peer_user_id" (text req.peer_user_id) else json in
    let json = insert_filled json "members" req.members in
    let json = insert_filled json "admins" req.admins in
    insert_filled json "subscribers" req.subscribers

unfoldable pub send_envelope_request_to_json : SendEnvelopeRequest → Fields
send_envelope_request_to_json req =
    let json = insert nil "device_id" (text req.device_id) in
    let json = insert json "conversation_id" (text req.conversation_id) in
    let json = insert json "ciphertext" (text req.ciphertext) in
    let json = insert json "envelope_id" (text req.envelope_id) in
    let json = insert json "envelope_type" (number req.envelope_type) in
    elim req.ordering_epoch [
      | none ↦ json
      | some epoch ↦ insert json "ordering_epoch" (number epoch)
    ]

-- The size goes through a `double`, which holds it exactly below 2^53.
unfoldable pub attachment_upload_init_request_to_json : AttachmentUploadInitRequest → Fields
attachment_upload_init_request_to_json req =
    let json = insert nil "conversation_id" (text req.conversation_id) in
    let json = insert json "file_size" (number (pos req.file_size)) in
    if text_is_empty req.mime_hint then json else insert json "mime_hint" (text req.mime_hint)

unfoldable pub sync_record_dto_to_json : SyncRecordDto → Fields
sync_record_dto_to_json dto =
    let json = insert nil "collection" (text dto.collection) in
    let json = insert json "record_id" (text dto.record_id) in
    let json = insert json "version" (number dto.version) in
    let json = insert json "ciphertext" (text dto.ciphertext) in
    insert json "deleted" (bool dto.deleted)
