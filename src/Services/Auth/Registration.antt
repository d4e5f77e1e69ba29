-- ===== src/Services/Auth/Registration.antt =====
-- src/services/AuthService.cpp and src/network/SyncApi.cpp: the sync key of a new account comes back
-- from what the server was given in the registration.
use vox_desktop.Base.{◌≡◌, refl, String, some, Bytes, length, is_empty, false, arith}
use vox_desktop.Base.Int.{ℤ, pos, IsInt}
use vox_desktop.Qt.{Qt, QtLaws}
use vox_desktop.Crypto.Sodium.{Sodium, SodiumLaws, Draw, IsDraw}
use vox_desktop.Crypto.Helpers.{random_bytes}
use vox_desktop.Crypto.Helpers.Guards.{random_bytes-eq}
use vox_desktop.Crypto.SyncWrap.{
  SyncWrapParams, WrappedSyncKeyBundle, default_params, params_from_json, sync_kek,
  wrap_sync_master_key, unwrap_sync_master_key,
}
use vox_desktop.Crypto.SyncWrap.RoundTrip.{unwrap-wrap_sync_master_key, params_from_json-to_json}
use vox_desktop.Crypto.Vault.{from_b64}
use vox_desktop.Crypto.Identity.{IdentityKeys}
use vox_desktop.Crypto.Prekeys.{SignedPrekey}
use vox_desktop.Network.{RegisterRequest, SyncKeyBundleDto}
use vox_desktop.Network.Parsing.{parse_sync_key_bundle_dto}
use vox_desktop.Network.Parsing.RoundTrip.{parse_sync_key_bundle_dto-body}
use vox_desktop.Network.Clients.Sync.{key_bundle_body}
use vox_desktop.Services.Auth.{AuthService}
use vox_desktop.Services.Auth.SignIn.{KeysEnv, register_request, wrapped_sync_key}

-- The bundle that a server keeps of a registration.
abbrev pub registered_bundle : ℤ → RegisterRequest → SyncKeyBundleDto
registered_bundle version request = record {
  version = version;
  wrapped_sync_key = request.wrapped_sync_key;
  sync_wrap_salt = request.sync_wrap_salt;
  sync_wrap_params = request.sync_wrap_params;
}

module _ (qt : Qt) (qt_laws : QtLaws qt) (lib : Sodium) (laws : SodiumLaws lib) where
  -- The bundle as the key's wrapping has it.
  abbrev pub bundle_of : SyncKeyBundleDto → WrappedSyncKeyBundle
  bundle_of dto = record {
    wrapped_sync_key = from_b64 qt lib dto.wrapped_sync_key;
    salt = from_b64 qt lib dto.sync_wrap_salt;
    params = params_from_json dto.sync_wrap_params;
  }

  bundle_of-registered :
      (version : ℤ) (s : AuthService) (username derived : String) (identity : IdentityKeys)
      (signed_prekey : SignedPrekey) (wrapped : WrappedSyncKeyBundle)
      → wrapped.params ≡ default_params
      → bundle_of (
          registered_bundle version
            (register_request qt lib s username derived identity signed_prekey wrapped))
        ≡ wrapped
  unfolding register_request
  bundle_of-registered version s username derived identity signed_prekey wrapped h =
      rw
        (
          qt_laws.base64_round_trip wrapped.wrapped_sync_key,
          qt_laws.base64_round_trip wrapped.salt,
          h,
          params_from_json-to_json default_params (omega arith) (omega arith) (omega arith),
          ← h,
        )
        refl

  wrap_sync_master_key-params :
      (draw_salt draw_nonce : Draw) (password key : Bytes) (params : SyncWrapParams)
      (bundle : WrappedSyncKeyBundle)
      → wrap_sync_master_key lib draw_salt draw_nonce password key params ≡ some bundle
      → bundle.params ≡ params
  unfolding wrap_sync_master_key
  wrap_sync_master_key-params draw_salt draw_nonce password key params bundle h = ground arith

  -- Where libsodium and Qt keep their laws, the password's hash is not empty and the password hash of
  -- libsodium succeeds for the salt that is drawn: a registration wraps a new sync key, and a server
  -- that keeps the key's bundle as the request has it, under a 32-bit version, and later answers with
  -- it as `putKeyBundle` prints it, gives back a bundle from which the same hash unwraps that key.
  pub registered_key-unwraps :
      (keys : KeysEnv) (version : ℤ) (s : AuthService) (username derived : String)
      (identity : IdentityKeys) (signed_prekey : SignedPrekey)
      → IsDraw keys.sync_key_draw
      → IsDraw keys.salt_draw
      → IsDraw keys.nonce_draw
      → is_empty (qt.to_utf8 derived) ≡ false
      → length (sync_kek lib (qt.to_utf8 derived) (keys.salt_draw 16) default_params) ≡ 32
      → IsInt version
      → (wrapped : WrappedSyncKeyBundle) × (wrapped_sync_key qt lib keys derived ≡ some wrapped)
        × ((kept : SyncKeyBundleDto) × (parse_sync_key_bundle_dto (
                key_bundle_body (
                  registered_bundle version
                    (register_request qt lib s username derived identity signed_prekey wrapped)))
              ≡ some kept)
            × (unwrap_sync_master_key lib (qt.to_utf8 derived) (bundle_of kept)
                ≡ some (keys.sync_key_draw 32)))
  unfolding wrapped_sync_key
  registered_key-unwraps keys version s username derived identity signed_prekey dk ds dn filled kdf
        int =
      let key = keys.sync_key_draw 32 in
      let drawn : random_bytes lib keys.sync_key_draw (pos 32) ≡ key =
        random_bytes-eq lib laws keys.sync_key_draw 32 (omega arith) in
      let (wrapped, made, opened) =
        unwrap-wrap_sync_master_key lib laws keys.salt_draw keys.nonce_draw (qt.to_utf8 derived) key
          default_params ds dn filled (dk 32) kdf in
      let params =
        wrap_sync_master_key-params keys.salt_draw keys.nonce_draw (qt.to_utf8 derived) key
          default_params wrapped made in
      let request = register_request qt lib s username derived identity signed_prekey wrapped in
      (
        wrapped,
        rw drawn made,
        (
          registered_bundle version request,
          parse_sync_key_bundle_dto-body (registered_bundle version request) int,
          rw (bundle_of-registered version s username derived identity signed_prekey wrapped params)
              opened,
        ),
      )
