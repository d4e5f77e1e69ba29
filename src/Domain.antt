-- ===== src/Domain.antt =====
-- src/domain/Models.hpp and Models.cpp: the enumerations, their names in the database, and the
-- records that the storage and the services pass around. A QDateTime is its milliseconds.
pub mod Names
use vox_desktop.Base.{ℕ, String, Bytes, Option, Bool}
use vox_desktop.Base.Int.{ℤ}

pub data ConversationType : Type 0 where
  dm group channel : ConversationType

pub data DeliveryState : Type 0 where
  draft queued encrypting uploading_attachments sending sent_to_server : DeliveryState
  delivered_to_peer_devices read_local failed : DeliveryState

pub data TrustLevel : Type 0 where
  unknown unverified verified blocked : TrustLevel

pub data ContentKind : Type 0 where
  text attachment system : ContentKind

pub record ServerProfile : Type 0 where
  pub server_id : String
  pub base_url : String
  pub display_name : String
  pub tls_mode : String
  pub pinned_cert_sha256 : String

pub record Account : Type 0 where
  pub account_id : String
  pub server_id : String
  pub user_id : String
  pub username : String
  pub active_device_id : String
  pub refresh_token_ciphertext : Bytes
  pub last_login : ℕ

pub record Device : Type 0 where
  pub device_id : String
  pub user_id : String
  pub server_id : String
  pub label : String
  pub identity_sign_pub : Bytes
  pub identity_dh_pub : Bytes
  pub trust_level : TrustLevel
  pub last_seen : ℕ

pub record Conversation : Type 0 where
  pub conversation_id : String
  pub server_id : String
  pub type : ConversationType
  pub title : String
  pub last_message_at : ℕ
  pub muted : Bool
  pub pin_rank : ℤ
  pub epoch : ℤ
  pub unread_count : ℤ

pub record Message : Type 0 where
  pub message_id : String
  pub conversation_id : String
  pub sender_user_id : String
  pub sender_device_id : String
  pub server_seq : ℕ
  pub client_created_at_ms : ℕ
  pub server_received_at_ms : ℕ
  pub content_kind : ContentKind
  pub ciphertext_blob : Bytes
  pub plaintext_cache_ciphertext : Bytes
  pub delivery_state : DeliveryState
  pub is_outgoing : Bool
  pub reply_to_message_id : Option String
  pub sender_key_epoch : ℤ

pub record SyncRecord : Type 0 where
  pub collection : String
  pub record_id : String
  pub version : ℤ
  pub ciphertext : Bytes
  pub updated_at_ms : ℕ
  pub tombstone : Bool

pub record DeviceFingerprint : Type 0 where
  pub device_id : String
  pub fingerprint : String
  pub trust_level : TrustLevel
  pub verified_at_ms : ℕ
