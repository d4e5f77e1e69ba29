-- ===== src/Network.antt =====
-- src/network: what the clients exchange with the server, as `ApiDtos.hpp` and `ApiResult.hpp`
-- declare it.
pub mod JsonCodec
pub mod Printing
pub mod Parsing
pub mod Access
pub mod Responses
pub mod ApiPaths
pub mod Clients
pub mod RealtimeSocket
use vox_desktop.Base.{ℕ, String, Bool, Option, List, Bytes}
use vox_desktop.Base.Int.{ℤ}
use vox_desktop.Qt.Json.{Fields}

pub record VoidResult : Type 0 where
  pub ok : Bool
  pub status_code : ℤ
  pub error : String

pub record ApiResult {ℓ} (A : Type ℓ) : Type ℓ where
  pub ok : Bool
  pub status_code : ℤ
  pub error : String
  -- `data` in the source, which is a reserved word here.
  pub payload : Option A

pub record ApiError : Type 0 where
  pub code : ℤ
  pub message : String

pub record RegisterRequest : Type 0 where
  pub username : String
  pub password_derived_value : String
  pub device_id : String
  pub device_label : String
  pub identity_key_public : String
  pub signed_prekey_public : String
  pub signed_prekey_signature : String
  pub wrapped_sync_key : String
  pub sync_wrap_salt : String
  pub sync_wrap_params : Fields

pub record LoginRequest : Type 0 where
  pub username : String
  pub password_derived_value : String
  pub device_id : String
  pub device_label : String
  pub identity_key_public : String
  pub signed_prekey_public : String
  pub signed_prekey_signature : String

pub record AuthSessionResponse : Type 0 where
  pub user_id : String
  pub access_token : String
  pub refresh_token : String
  pub device_status : String
  pub sync_key_version : ℤ

pub record RefreshRequest : Type 0 where
  pub refresh_token : String
  pub device_id : String

pub record RefreshResponse : Type 0 where
  pub access_token : String
  pub refresh_token : String

pub record MeResponse : Type 0 where
  pub user_id : String
  pub username : String
  pub current_device_id : String
  pub sync_key_version : ℤ

pub record DirectoryUser : Type 0 where
  pub user_id : String
  pub username : String

pub record DeviceDirectoryEntry : Type 0 where
  pub device_id : String
  pub device_label : String
  pub identity_key_public : String
  pub signed_prekey_public : String
  pub signed_prekey_signature : String

pub record ConversationCreateRequest : Type 0 where
  pub type : String
  pub peer_user_id : String
  pub members : List String
  pub admins : List String
  pub subscribers : List String

pub record ConversationCreateResponse : Type 0 where
  pub conversation_id : String

pub record ConversationSummaryDto : Type 0 where
  pub conversation_id : String
  pub type : ℤ
  pub created_by : String
  pub created_by_username : String
  pub created_at : ℤ
  pub membership_version : ℤ
  pub my_role : String
  pub title : String
  pub channel_post_policy : String
  pub peer_user_id : Option String

pub record ConversationMemberDto : Type 0 where
  pub user_id : String
  pub username : String
  pub role : String

pub record ConversationMembersResponseDto : Type 0 where
  pub conversation_id : String
  pub membership_version : ℤ
  pub members : List ConversationMemberDto
  pub admins : List ConversationMemberDto
  pub subscribers : List ConversationMemberDto
  pub subscription_state : String
  pub member_count : ℤ

pub record EnvelopeDto : Type 0 where
  pub envelope_id : String
  pub conversation_id : String
  pub sender_user_id : String
  pub sender_device_id : String
  pub ciphertext : String
  pub server_timestamp : ℤ
  pub envelope_type : ℤ
  pub ordering_epoch : Option ℤ

pub record EnvelopeBatchResponse : Type 0 where
  pub envelopes : List EnvelopeDto
  pub next_cursor : String
  pub has_more : Bool

pub record SyncKeyBundleDto : Type 0 where
  pub version : ℤ
  pub wrapped_sync_key : String
  pub sync_wrap_salt : String
  pub sync_wrap_params : Fields

pub record SendEnvelopeRequest : Type 0 where
  pub device_id : String
  pub conversation_id : String
  pub ciphertext : String
  pub envelope_id : String
  pub envelope_type : ℤ
  pub ordering_epoch : Option ℤ

pub record SendEnvelopeResponse : Type 0 where
  pub envelope_id : String
  pub server_timestamp : ℤ
  pub delivered_to_count : ℤ

pub record SyncRecordDto : Type 0 where
  pub collection : String
  pub record_id : String
  pub version : ℤ
  pub ciphertext : String
  pub deleted : Bool

pub record SyncChangesResponse : Type 0 where
  pub records : List SyncRecordDto
  pub next_cursor : String
  pub has_more : Bool

pub record AttachmentUploadInitRequest : Type 0 where
  pub conversation_id : String
  pub file_size : ℕ
  pub mime_hint : String

pub record AttachmentUploadInitResponse : Type 0 where
  pub attachment_id : String
  pub blob_path : String

-- The methods of `AttachmentsApi` that the attachment service calls.
pub record AttachmentsApi : Type 0 where
  pub upload_init : AttachmentUploadInitRequest → ApiResult AttachmentUploadInitResponse
  pub upload_chunk : String → ℕ → Bytes → VoidResult
  pub finalize : String → String → VoidResult
  pub download : String → ApiResult Bytes
