-- ===== src/Services/Auth.antt =====
-- src/services/AuthService.cpp, over the vault, the accounts and the network. A call returns its
-- result beside the new state of all of them.
pub mod SignIn
pub mod Restore
pub mod Sessions
pub mod Logout
pub mod Accepted
pub mod Registration
use Prim.Native.String.{◌++◌ as append_text}
use vox_desktop.Base.{
  ℕ, String, Bool, true, false, not, ◌||◌, Bytes, Option, none, some, text_is_empty, if◌then◌else◌,
}
use vox_desktop.Base.Int.{pos}
use vox_desktop.Qt.{Qt}
use vox_desktop.Qt.Json.{nil}
use vox_desktop.Domain.{Account}
use vox_desktop.Crypto.Sodium.{Sodium, Draw}
use vox_desktop.Crypto.Helpers.{random_bytes}
use vox_desktop.Crypto.SyncWrap.{
  WrappedSyncKeyBundle, default_params, params_to_json, wrap_sync_master_key,
}
use vox_desktop.Crypto.Vault.{VaultService, Disk, to_b64, load_secret, store_secret, remove_secret}
use vox_desktop.Crypto.Identity.{KeyPair, IdentityKeys, identity_keys, ensure_identity_keys}
use vox_desktop.Crypto.Prekeys.{SignedPrekey, PrekeyManager, rotate_signed_prekey}
use vox_desktop.Storage.Accounts.{AccountsTable, upsert_account, active_account, delete_account}
use vox_desktop.Network.{
  VoidResult, ApiResult, RegisterRequest, LoginRequest, RefreshRequest, AuthSessionResponse,
  RefreshResponse,
}
use vox_desktop.Network.Access.{NetworkAccess, Transport, set_bearer_token}
use vox_desktop.Network.Clients.Auth

pub record AuthContext : Type 0 where
  pub user_id : String
  pub username : String
  pub device_id : String
  pub access_token : String
  pub refresh_token : String

pub record AuthService : Type 0 where
  pub context : Option AuthContext
  pub network : NetworkAccess
  pub accounts : AccountsTable
  pub vault : VaultService
  pub prekeys : PrekeyManager
  pub server_id : String
  pub device_id : String

-- What happens around a session's calls: the server, the new UUID, the clock, the saving of a
-- secret, and whether the database runs each statement.
pub record SessionEnv : Type 0 where
  pub transport : Transport
  pub account_id : String
  pub now_ms : ℕ
  pub draw : Draw
  pub disk : Disk
  pub runs_active : Bool
  pub runs_upsert : Bool
  pub runs_delete : Bool

abbrev pub refresh_token_name : String → String
refresh_token_name user_id = append_text "refresh_token/" user_id

abbrev pub session_context : AuthService → String → AuthSessionResponse → AuthContext
session_context s username response = record {
  user_id = response.user_id;
  username = username;
  device_id = s.device_id;
  access_token = response.access_token;
  refresh_token = response.refresh_token;
}

module _ (qt : Qt) (lib : Sodium) where
  abbrev pub session_account : SessionEnv → AuthService → String → AuthSessionResponse → Account
  session_account env s username response = record {
    account_id = env.account_id;
    server_id = s.server_id;
    user_id = response.user_id;
    username = username;
    active_device_id = s.device_id;
    refresh_token_ciphertext = qt.to_utf8 response.refresh_token;
    last_login = env.now_ms;
  }

  unfoldable pub persist_session :
      SessionEnv → String → AuthSessionResponse → AuthService → Bool × AuthService
  persist_session env username response s =
      let (stored, vault) =
        store_secret qt lib env.draw env.disk s.vault (refresh_token_name response.user_id)
          (qt.to_utf8 response.refresh_token) in
      let (kept, accounts) =
        upsert_account env.runs_upsert (session_account env s username response) s.accounts in
      let s' : AuthService = record s {
        network = set_bearer_token s.network response.access_token;
        context = some (session_context s username response);
        vault = vault;
      } in
      if not stored then (false, s') else (kept, record s' { accounts = accounts })

  -- What both calls do with the server's answer.
  abbrev pub finish :
      SessionEnv → String → ApiResult AuthSessionResponse → AuthService → Bool × AuthService
  finish env username answer s = elim answer.payload [
    | none ↦ (false, s)
    | some response ↦ if not answer.ok then (false, s) else persist_session env username response s
  ]
