-- ===== src/Services/Auth/SignIn.antt =====
-- src/services/AuthService.cpp: registration and login.
use vox_desktop.Base.{
  ℕ, String, Bool, true, false, not, ◌||◌, Bytes, Option, none, some, text_is_empty, if◌then◌else◌,
}
use vox_desktop.Base.Int.{pos}
use vox_desktop.Qt.{Qt}
use vox_desktop.Crypto.Sodium.{Sodium, Draw}
use vox_desktop.Crypto.Helpers.{random_bytes}
use vox_desktop.Crypto.SyncWrap.{
  WrappedSyncKeyBundle, default_params, params_to_json, wrap_sync_master_key,
}
use vox_desktop.Crypto.Vault.{Disk, to_b64}
use vox_desktop.Crypto.Identity.{KeyPair, IdentityKeys, identity_keys, ensure_identity_keys}
use vox_desktop.Crypto.Prekeys.{SignedPrekey, rotate_signed_prekey}
use vox_desktop.Network.{RegisterRequest, LoginRequest}
use vox_desktop.Network.Clients.Auth
use vox_desktop.Services.Auth.{AuthService, SessionEnv, finish}

-- What happens around the making of keys: random bytes, saves, and what the generators return.
pub record KeysEnv : Type 0 where
  pub identity_draws : ℕ → Draw
  pub identity_disks : ℕ → Disk
  pub sign_pair : Option KeyPair
  pub dh_pair : Option KeyPair
  pub prekey_draws : ℕ → Draw
  pub prekey_disks : ℕ → Disk
  pub prekey_pair : Option KeyPair
  pub sync_key_draw : Draw
  pub salt_draw : Draw
  pub nonce_draw : Draw

module _ (qt : Qt) (lib : Sodium) where
  -- `ensureIdentityKeys`, and where it succeeds the identity and the new signed prekey.
  unfoldable pub session_keys :
      KeysEnv → AuthService → Bool × Option IdentityKeys × Option SignedPrekey × AuthService
  session_keys keys s =
      let (ensured, vault) =
        ensure_identity_keys qt lib keys.identity_draws keys.identity_disks keys.sign_pair
          keys.dh_pair s.vault in
      let (signed_prekey, prekeys, vault') =
        rotate_signed_prekey qt lib keys.prekey_draws keys.prekey_disks keys.prekey_pair s.prekeys
          vault in
      if not ensured then (false, none, none, record s { vault = vault }) else (
        true,
        identity_keys vault,
        signed_prekey,
        record s { vault = vault'; prekeys = prekeys },
      )

  unfoldable pub register_request :
      AuthService
      → String
      → String
      → IdentityKeys
      → SignedPrekey
      → WrappedSyncKeyBundle
      → RegisterRequest
  register_request s username derived identity signed_prekey wrapped_sync = record {
    username = username;
    password_derived_value = derived;
    device_id = s.device_id;
    device_label = "Vox Desktop";
    identity_key_public = to_b64 qt lib identity.dh_public;
    signed_prekey_public = to_b64 qt lib signed_prekey.public_key;
    signed_prekey_signature = to_b64 qt lib signed_prekey.signature;
    wrapped_sync_key = to_b64 qt lib wrapped_sync.wrapped_sync_key;
    sync_wrap_salt = to_b64 qt lib wrapped_sync.salt;
    sync_wrap_params = params_to_json wrapped_sync.params;
  }

  unfoldable pub wrapped_sync_key : KeysEnv → String → Option WrappedSyncKeyBundle
  wrapped_sync_key keys derived =
      let sync_master_key = random_bytes lib keys.sync_key_draw (pos 32) in
      wrap_sync_master_key lib keys.salt_draw keys.nonce_draw (qt.to_utf8 derived) sync_master_key
        default_params

  -- `registerUser` from the keys on.
  abbrev pub register_with :
      SessionEnv
      → String
      → String
      → Option IdentityKeys
      → Option SignedPrekey
      → Option WrappedSyncKeyBundle
      → AuthService
      → Bool × AuthService
  register_with env username derived (some identity) (some signed_prekey) (some wrapped_sync) s =
      finish qt lib env username
        (Auth.register_user qt env.transport s.network
          (register_request s username derived identity signed_prekey wrapped_sync))
        s
  register_with env username derived _ _ _ s = (false, s)

  -- The keys are sent along where there are any.
  abbrev pub login_request :
      AuthService → String → String → Option IdentityKeys → Option SignedPrekey → LoginRequest
  login_request s username derived (some identity) (some signed_prekey) = record {
    username = username;
    password_derived_value = derived;
    device_id = s.device_id;
    device_label = "Vox Desktop";
    identity_key_public = to_b64 qt lib identity.dh_public;
    signed_prekey_public = to_b64 qt lib signed_prekey.public_key;
    signed_prekey_signature = to_b64 qt lib signed_prekey.signature;
  }
  login_request s username derived _ _ = record {
    username = username;
    password_derived_value = derived;
    device_id = s.device_id;
    device_label = "Vox Desktop";
    identity_key_public = "";
    signed_prekey_public = "";
    signed_prekey_signature = "";
  }

  -- `hash_hex` is QCryptographicHash::hash with Sha256, toHex and fromLatin1.
  module _ (hash_hex : Bytes → String) where
    abbrev pub sha256_hex_lower : String → String
    sha256_hex_lower input = hash_hex (qt.to_utf8 input)

    unfoldable pub register_user :
        SessionEnv → KeysEnv → String → String → AuthService → Bool × AuthService
    register_user env keys username password_derived s =
        let derived = sha256_hex_lower password_derived in
        let (ensured, identity, signed_prekey, s') = session_keys keys s in
        if text_is_empty username || text_is_empty password_derived
        then (false, s)
        else if not ensured
        then (false, s')
        else register_with env username derived identity signed_prekey
            (wrapped_sync_key keys derived) s'

    unfoldable pub login : SessionEnv → KeysEnv → String → String → AuthService → Bool × AuthService
    login env keys username password_derived s =
        let derived = sha256_hex_lower password_derived in
        let (ensured, identity, signed_prekey, s') = session_keys keys s in
        if text_is_empty username || text_is_empty password_derived
        then (false, s)
        else finish qt lib env username
            (Auth.login qt env.transport s'.network
              (login_request s' username derived identity signed_prekey))
            s'
