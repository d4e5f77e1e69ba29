-- ===== src/Storage/Migrations/Schema.antt =====
-- src/storage/Migrations.cpp: the statements of the first version of the schema, a table as its name
-- and the lines of its definition.
use vox_desktop.Base.{ℕ, String, List, [], ◌∷◌}

pub data Statement : Type 0 where
  -- CREATE TABLE IF NOT EXISTS
  create_table : String → List String → Statement
  -- INSERT OR IGNORE INTO schema_migrations(id, version) VALUES(1, 0)
  insert_version : Statement
  -- SELECT version FROM schema_migrations WHERE id = 1
  select_version : Statement
  -- UPDATE schema_migrations SET version = ... WHERE id = 1
  set_version : ℕ → Statement

abbrev pub schema_migrations : Statement
schema_migrations =
    create_table "schema_migrations"
      ("id INTEGER PRIMARY KEY CHECK(id = 1)" ∷ "version INTEGER NOT NULL" ∷ [])

abbrev pub statements : List Statement
statements =
    create_table "servers" (
      "server_id TEXT PRIMARY KEY" ∷ "base_url TEXT NOT NULL" ∷ "display_name TEXT NOT NULL"
      ∷ "tls_mode TEXT NOT NULL" ∷ "pinned_cert_sha256 TEXT" ∷ "created_at_ms INTEGER NOT NULL"
      ∷ [])
    ∷ create_table "accounts" (
        "account_id TEXT PRIMARY KEY" ∷ "server_id TEXT NOT NULL" ∷ "user_id TEXT NOT NULL"
        ∷ "username TEXT NOT NULL" ∷ "active_device_id TEXT NOT NULL"
        ∷ "refresh_token_ciphertext BLOB NOT NULL" ∷ "last_login_ms INTEGER NOT NULL" ∷ [])
    ∷ create_table "devices" (
        "device_id TEXT PRIMARY KEY" ∷ "user_id TEXT NOT NULL" ∷ "server_id TEXT NOT NULL"
        ∷ "label TEXT NOT NULL" ∷ "identity_sign_pub BLOB" ∷ "identity_dh_pub BLOB"
        ∷ "signed_prekey_pub BLOB" ∷ "signed_prekey_id INTEGER" ∷ "signed_prekey_sig BLOB"
        ∷ "last_seen_ms INTEGER NOT NULL" ∷ "trust_state TEXT NOT NULL" ∷ [])
    ∷ create_table "conversations" (
        "conversation_id TEXT PRIMARY KEY" ∷ "server_id TEXT NOT NULL" ∷ "type TEXT NOT NULL"
        ∷ "title_ciphertext BLOB" ∷ "last_message_at_ms INTEGER NOT NULL"
        ∷ "last_sort_key INTEGER NOT NULL" ∷ "mute_state INTEGER NOT NULL"
        ∷ "pin_rank INTEGER NOT NULL" ∷ "draft_ciphertext BLOB" ∷ "epoch INTEGER NOT NULL" ∷ [])
    ∷ create_table "messages" (
        "message_id TEXT PRIMARY KEY" ∷ "conversation_id TEXT NOT NULL"
        ∷ "sender_user_id TEXT NOT NULL" ∷ "sender_device_id TEXT NOT NULL"
        ∷ "server_seq INTEGER NOT NULL" ∷ "client_created_at_ms INTEGER NOT NULL"
        ∷ "server_received_at_ms INTEGER NOT NULL" ∷ "content_kind TEXT NOT NULL"
        ∷ "ciphertext_blob BLOB NOT NULL" ∷ "plaintext_cache_ciphertext BLOB"
        ∷ "delivery_state TEXT NOT NULL" ∷ "read_state TEXT NOT NULL"
        ∷ "is_outgoing INTEGER NOT NULL" ∷ "reply_to_message_id TEXT"
        ∷ "sender_key_epoch INTEGER NOT NULL" ∷ [])
    ∷ create_table "attachments" (
        "attachment_id TEXT PRIMARY KEY" ∷ "message_id TEXT NOT NULL"
        ∷ "ciphertext_path TEXT NOT NULL" ∷ "mime_type_ciphertext BLOB"
        ∷ "file_name_ciphertext BLOB" ∷ "plaintext_size INTEGER NOT NULL"
        ∷ "ciphertext_size INTEGER NOT NULL" ∷ "sha256_ciphertext BLOB"
        ∷ "download_state TEXT NOT NULL" ∷ [])
    ∷ create_table "sessions" (
        "peer_device_id TEXT PRIMARY KEY" ∷ "session_version INTEGER NOT NULL"
        ∷ "state_blob_ciphertext BLOB NOT NULL" ∷ "updated_at_ms INTEGER NOT NULL" ∷ [])
    ∷ create_table "sender_keys" (
        "conversation_id TEXT NOT NULL" ∷ "owner_device_id TEXT NOT NULL" ∷ "epoch INTEGER NOT NULL"
        ∷ "state_blob_ciphertext BLOB NOT NULL" ∷ "updated_at_ms INTEGER NOT NULL"
        ∷ "PRIMARY KEY (conversation_id, owner_device_id, epoch)" ∷ [])
    ∷ create_table "sync_records" (
        "collection TEXT NOT NULL" ∷ "record_id TEXT NOT NULL" ∷ "version INTEGER NOT NULL"
        ∷ "ciphertext BLOB NOT NULL" ∷ "updated_at_ms INTEGER NOT NULL"
        ∷ "tombstone INTEGER NOT NULL DEFAULT 0" ∷ "PRIMARY KEY (collection, record_id)" ∷ [])
    ∷ create_table "trusted_devices" (
        "device_id TEXT PRIMARY KEY" ∷ "fingerprint TEXT NOT NULL" ∷ "trust_level TEXT NOT NULL"
        ∷ "verified_at_ms INTEGER NOT NULL" ∷ "note_ciphertext BLOB" ∷ [])
    ∷ create_table "search_tokens" (
        "conversation_id TEXT NOT NULL" ∷ "message_id TEXT NOT NULL" ∷ "token_digest BLOB NOT NULL"
        ∷ "position_hint INTEGER NOT NULL" ∷ [])
    ∷ create_table "jobs" (
        "job_id INTEGER PRIMARY KEY AUTOINCREMENT" ∷ "type TEXT NOT NULL"
        ∷ "payload_ciphertext BLOB NOT NULL" ∷ "state TEXT NOT NULL"
        ∷ "attempt_count INTEGER NOT NULL DEFAULT 0" ∷ "next_attempt_ms INTEGER NOT NULL" ∷ [])
    ∷ set_version 1
    ∷ []
