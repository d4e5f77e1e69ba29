-- ===== src/Crypto/SyncWrap/RoundTrip.antt =====
-- src/crypto/SyncCrypto.cpp: a wrapped key comes back under the password that wrapped it.
use vox_desktop.Base.{
  ◌≡◌, some, Bytes, codes, length, length-append, take-append, drop-append, ◌++◌, is_empty,
  is_empty-false, false, arith,
}
use vox_desktop.Base.Int.{IsInt}
use vox_desktop.Crypto.Sodium.{Sodium, SodiumLaws, Draw, IsDraw}
use vox_desktop.Crypto.Helpers.{random_bytes, xchacha_encrypt_local}
use vox_desktop.Crypto.Helpers.Guards.{length-xchacha_encrypt_local, xchacha_decrypt_local-encrypt}
use vox_desktop.Crypto.SyncWrap.{
  SyncWrapParams, params_to_json, params_from_json, WrappedSyncKeyBundle, sync_kek,
  wrap_sync_master_key, unwrap_sync_master_key,
}

module _ (lib : Sodium) (laws : SodiumLaws lib) where
  -- Where libsodium keeps its laws, and for a non-empty password, a 32-byte key and a password hash
  -- that succeeds for the salt that is drawn: the key is wrapped, and unwrapping the bundle with
  -- the same password gives it back.
  pub unwrap-wrap_sync_master_key :
      (draw_salt draw_nonce : Draw) (password key : Bytes) (params : SyncWrapParams)
      → IsDraw draw_salt
      → IsDraw draw_nonce
      → is_empty password ≡ false
      → length key ≡ 32
      → length (sync_kek lib password (draw_salt 16) params) ≡ 32
      → (bundle : WrappedSyncKeyBundle) × (wrap_sync_master_key lib draw_salt draw_nonce password
            key params
          ≡ some bundle)
        × (unwrap_sync_master_key lib password bundle ≡ some key)
  unfolding wrap_sync_master_key unwrap_sync_master_key random_bytes
  unwrap-wrap_sync_master_key draw_salt draw_nonce password key params ds dn p k h =
      let salt = draw_salt 16 in
      let nonce = draw_nonce 24 in
      let kek = sync_kek lib password salt params in
      let wrapped = xchacha_encrypt_local lib kek nonce key (codes "vox-sync-v1") in
      let size =
        length-xchacha_encrypt_local lib laws kek nonce key (codes "vox-sync-v1") h (dn 24) in
      let opened =
        xchacha_decrypt_local-encrypt lib laws kek nonce key (codes "vox-sync-v1") h (dn 24) in
      (
        record { wrapped_sync_key = nonce ++ wrapped; salt = salt; params = params },
        ground (arith, laws.ready, ds 16, dn 24, is_empty-false wrapped, size),
        ground (
          arith,
          length-append nonce wrapped,
          take-append 24 nonce wrapped (dn 24),
          drop-append 24 nonce wrapped (dn 24),
          size,
          opened,
          dn 24,
        ),
      )

-- Parameters that are 32-bit `int`s are read back from their JSON object.
pub params_from_json-to_json :
    (p : SyncWrapParams)
    → IsInt p.memory_kib
    → IsInt p.iterations
    → IsInt p.parallelism
    → params_from_json (params_to_json p) ≡ p
unfolding params_from_json params_to_json
params_from_json-to_json p a b c = ground arith
