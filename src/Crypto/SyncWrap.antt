-- ===== src/Crypto/SyncWrap.antt =====
-- src/crypto/SyncCrypto.cpp: the sync master key wrapped under a key derived from the password.
pub mod RoundTrip
use vox_desktop.Base.{
  ℕ, ◌+◌, ◌-◌, ◌*◌, ◌%◌, ◌^◌, String, Bool, true, false, not, ◌||◌, Option, none, some, Bytes,
  codes, length, ◌++◌, is_empty, take, drop, ltb, nat_beq, if◌then◌else◌,
}
use vox_desktop.Base.Int.{ℤ, pos, negsuc}
use vox_desktop.Qt.Json.{Json, Fields, nil, text, number, insert, value, to_int}
use vox_desktop.Crypto.Sodium.{
  Sodium, Draw, chacha20_key_bytes, chacha20_tag_bytes, xchacha20_nonce_bytes, pwhash_salt_bytes,
}
use vox_desktop.Crypto.Helpers.{
  random_bytes, argon2id_kdf, xchacha_encrypt_local, xchacha_decrypt_local,
}

pub record SyncWrapParams : Type 0 where
  pub memory_kib : ℤ
  pub iterations : ℤ
  pub parallelism : ℤ

-- SyncWrapParams{}
abbrev pub default_params : SyncWrapParams
default_params = record { memory_kib = pos 65536; iterations = pos 3; parallelism = pos 1 }

unfoldable pub params_to_json : SyncWrapParams → Fields
unfolding insert
params_to_json p =
    insert
      (insert (insert (insert nil "algorithm" (text "argon2id")) "memory_kib" (number p.memory_kib))
        "iterations" (number p.iterations))
      "parallelism" (number p.parallelism)

unfoldable pub params_from_json : Fields → SyncWrapParams
unfolding value
params_from_json obj = record {
  memory_kib = to_int (value obj "memory_kib") default_params.memory_kib;
  iterations = to_int (value obj "iterations") default_params.iterations;
  parallelism = to_int (value obj "parallelism") default_params.parallelism;
}

pub record WrappedSyncKeyBundle : Type 0 where
  pub wrapped_sync_key : Bytes
  pub salt : Bytes
  pub params : SyncWrapParams

-- `static_cast` of an `int` to an unsigned 64-bit number.
abbrev pub to_u64 : ℤ → ℕ
to_u64 (pos n) = n
to_u64 (negsuc n) = 2 ^ 64 - 1 - n

abbrev pub mem_limit : SyncWrapParams → ℕ
mem_limit p = to_u64 p.memory_kib * 1024 % 2 ^ 64

module _ (lib : Sodium) where
  unfoldable pub sync_kek : Bytes → Bytes → SyncWrapParams → Bytes
  sync_kek password_derived salt params =
      argon2id_kdf lib password_derived salt (to_u64 params.iterations) (mem_limit params)
        chacha20_key_bytes

  -- The two draws are those of the salt and of the nonce.
  unfoldable pub wrap_sync_master_key :
      Draw → Draw → Bytes → Bytes → SyncWrapParams → Option WrappedSyncKeyBundle
  wrap_sync_master_key draw_salt draw_nonce password_derived sync_master_key params =
      let salt = random_bytes lib draw_salt (pos pwhash_salt_bytes) in
      let kek = sync_kek password_derived salt params in
      let nonce = random_bytes lib draw_nonce (pos xchacha20_nonce_bytes) in
      let wrapped = xchacha_encrypt_local lib kek nonce sync_master_key (codes "vox-sync-v1") in
      if is_empty password_derived || not (nat_beq (length sync_master_key) chacha20_key_bytes)
      then none
      else if not (nat_beq (length salt) pwhash_salt_bytes)
      then none
      else if not (nat_beq (length kek) chacha20_key_bytes)
      then none
      else if not (nat_beq (length nonce) xchacha20_nonce_bytes)
      then none
      else if is_empty wrapped
      then none
      else some (record { wrapped_sync_key = nonce ++ wrapped; salt = salt; params = params })

  unfoldable pub unwrap_sync_master_key : Bytes → WrappedSyncKeyBundle → Option Bytes
  unwrap_sync_master_key password_derived bundle =
      let kek = sync_kek password_derived bundle.salt bundle.params in
      let nonce = take xchacha20_nonce_bytes bundle.wrapped_sync_key in
      let ciphertext = drop xchacha20_nonce_bytes bundle.wrapped_sync_key in
      if is_empty password_derived
        || ltb (length bundle.wrapped_sync_key) (xchacha20_nonce_bytes + chacha20_tag_bytes)
      then none
      else if not (nat_beq (length kek) chacha20_key_bytes)
      then none
      else xchacha_decrypt_local lib kek nonce ciphertext (codes "vox-sync-v1")
