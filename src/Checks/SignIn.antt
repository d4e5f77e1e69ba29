-- ===== src/Checks/SignIn.antt =====
-- The theorems on login and registration at concrete inputs.
use vox_desktop.Base.{
  ◌≡◌, refl, true, false, String, string_eq, Bytes, codes, length, some, none, arith,
}
use vox_desktop.Base.Int.{pos}
use vox_desktop.Base.Dict.{lookup}
use vox_desktop.Qt.Json.{insert, value}
use vox_desktop.Network.{SyncKeyBundleDto}
use vox_desktop.Network.Parsing.{get_string, parse_auth_session_response, parse_sync_key_bundle_dto}
use vox_desktop.Network.Access.{post_json, execute, send_request, response_of}
use vox_desktop.Network.Responses.Verdict.{parse_typed_response-accepted}
use vox_desktop.Network.Clients.Auth
use vox_desktop.Network.Clients.Sync.{key_bundle_body}
use vox_desktop.Network.Clients.Sync.Documents.{parse_object-to_bytes}
use vox_desktop.Crypto.Helpers.{argon2id_kdf}
use vox_desktop.Crypto.SyncWrap.{
  WrappedSyncKeyBundle, default_params, sync_kek, unwrap_sync_master_key,
}
use vox_desktop.Crypto.Identity.{KeyPair, IdentityKeys, ensure_identity_keys, identity_keys}
use vox_desktop.Crypto.Prekeys.{SignedPrekey}
use vox_desktop.Crypto.Vault.{load_secret}
use vox_desktop.Services.Auth.SignIn.{
  KeysEnv, session_keys, register_request, wrapped_sync_key, login,
}
use vox_desktop.Services.Auth.Accepted.{IsAccepted, login-true}
use vox_desktop.Services.Auth.Registration.{registered_bundle, bundle_of, registered_key-unwraps}
use vox_desktop.Checks.Library.{sodium, sodium_laws, counting, counting-IsDraw, qt, qt_laws}
use vox_desktop.Checks.Vault.{working}
use vox_desktop.Checks.Auth.{
  service, env, session_document, session, ok_response, ok_response-IsOk, kept,
}

abbrev pair : KeyPair
pair = record { public = codes "P"; private = codes "S" }

-- Key generators that fail while the identity is made: `login` goes on without keys.
abbrev keys : KeysEnv
keys = record {
  identity_draws = λ n. counting n;
  identity_disks = λ n. working;
  sign_pair = none;
  dh_pair = none;
  prekey_draws = λ n. counting n;
  prekey_disks = λ n. working;
  prekey_pair = some pair;
  sync_key_draw = counting 1;
  salt_draw = counting 2;
  nonce_draw = counting 3;
}

abbrev no_hash : Bytes → String
no_hash b = "hash"

session-parses : parse_auth_session_response session_document ≡ some session
unfolding parse_auth_session_response get_string insert value
session-parses = refl

no_keys : session_keys qt sodium keys service ≡ (false, none, none, service)
unfolding session_keys ensure_identity_keys identity_keys load_secret lookup
no_keys = refl

logged_in : (login qt sodium no_hash env keys "ann" "password" service).0 ≡ true
unfolding login Auth.login post_json execute send_request response_of
logged_in =
    let accepted =
      parse_typed_response-accepted qt parse_auth_session_response (ok_response session_document)
        session_document session (ok_response-IsOk session_document)
        (parse_object-to_bytes qt qt_laws session_document) session-parses in
    rw (no_keys, accepted) kept

login-true_example :
    IsAccepted qt sodium no_hash env "ann" "password" service
      (login qt sodium no_hash env keys "ann" "password" service).1
login-true_example = login-true qt sodium no_hash env keys "ann" "password" service logged_in

abbrev identity : IdentityKeys
identity = record {
  signing_public = codes "P";
  signing_private = codes "S";
  dh_public = codes "Q";
  dh_private = codes "T";
}

abbrev prekey : SignedPrekey
prekey = record {
  key_id = pos 1;
  public_key = codes "P";
  private_key = codes "S";
  signature = codes "sig";
}

key-size : length (sync_kek sodium (codes "hash") (counting 2 16) default_params) ≡ 32
unfolding sync_kek argon2id_kdf
key-size = refl

registered_key-unwraps_example :
    (wrapped : WrappedSyncKeyBundle) × (wrapped_sync_key qt sodium keys "hash" ≡ some wrapped)
    × ((kept : SyncKeyBundleDto) × (parse_sync_key_bundle_dto (
            key_bundle_body (
              registered_bundle
                (pos 1)
                (register_request qt sodium service "ann" "hash" identity prekey wrapped)))
          ≡ some kept)
        × (unwrap_sync_master_key sodium
              (codes "hash")
              (bundle_of qt qt_laws sodium sodium_laws kept)
            ≡ some (counting 1 32)))
registered_key-unwraps_example =
    registered_key-unwraps qt qt_laws sodium sodium_laws keys (pos 1) service "ann" "hash" identity
      prekey (counting-IsDraw 1) (counting-IsDraw 2) (counting-IsDraw 3) refl key-size (omega arith)
