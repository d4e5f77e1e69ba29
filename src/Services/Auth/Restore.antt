-- ===== src/Services/Auth/Restore.antt =====
-- src/services/AuthService.cpp: a session after a restart, and its end.
use vox_desktop.Base.{Bool, true, false, not, Bytes, Option, none, some, if◌then◌else◌}
use vox_desktop.Qt.{Qt}
use vox_desktop.Domain.{Account}
use vox_desktop.Crypto.Sodium.{Sodium}
use vox_desktop.Crypto.Vault.{load_secret, store_secret, remove_secret}
use vox_desktop.Storage.Accounts.{upsert_account, active_account, delete_account}
use vox_desktop.Network.{RefreshRequest, RefreshResponse}
use vox_desktop.Network.Access.{set_bearer_token}
use vox_desktop.Network.Clients.Auth
use vox_desktop.Services.Auth.{AuthService, SessionEnv, refresh_token_name}

module _ (qt : Qt) (lib : Sodium) where
  -- `restoreSession` from the refreshed tokens on. Whether the vault stores the secret is not
  -- looked at.
  unfoldable pub refresh_session :
      SessionEnv → Account → RefreshResponse → AuthService → Bool × AuthService
  refresh_session env account refreshed s =
      let vault =
        (store_secret qt lib env.draw env.disk s.vault (refresh_token_name account.user_id)
          (qt.to_utf8 refreshed.refresh_token)).1 in
      let updated : Account = record account {
        refresh_token_ciphertext = qt.to_utf8 refreshed.refresh_token;
        last_login = env.now_ms;
      } in
      let (kept, accounts) = upsert_account env.runs_upsert updated s.accounts in
      (
        kept,
        record s {
          network = set_bearer_token s.network refreshed.access_token;
          context = some (record {
            user_id = account.user_id;
            username = account.username;
            device_id = account.active_device_id;
            access_token = refreshed.access_token;
            refresh_token = refreshed.refresh_token;
          });
          vault = vault;
          accounts = accounts;
        },
      )

  abbrev pub restore_account :
      SessionEnv → Account → Option Bytes → AuthService → Bool × AuthService
  restore_account env account none s = (false, s)
  restore_account env account (some refresh_token) s =
      let request : RefreshRequest = record {
        refresh_token = qt.from_utf8 refresh_token;
        device_id = account.active_device_id;
      } in
      let answer = Auth.refresh qt env.transport s.network request in
      elim answer.payload [
        | none ↦ (false, s)
        | some refreshed ↦
            if not answer.ok then (false, s) else refresh_session env account refreshed s
      ]

  unfoldable pub restore_session : SessionEnv → AuthService → Bool × AuthService
  restore_session env s = elim (active_account env.runs_active s.accounts) [
    | none ↦ (false, s)
    | some account ↦
        restore_account env account (load_secret s.vault (refresh_token_name account.user_id)) s
  ]

  -- The vault and the accounts without the session's.
  abbrev pub forget : SessionEnv → Option Account → AuthService → AuthService
  forget env none s = s
  forget env (some active) s = record s {
    vault = (remove_secret qt lib env.draw env.disk s.vault (refresh_token_name active.user_id)).1;
    accounts = (delete_account env.runs_delete active.account_id s.accounts).1;
  }

  unfoldable pub logout : SessionEnv → AuthService → Bool × AuthService
  logout env s = elim s.context [
    | none ↦ (true, s)
    | some context ↦ (
      (Auth.logout qt env.transport s.network).ok,
      record (forget env (active_account env.runs_active s.accounts) s) {
        network = set_bearer_token s.network "";
        context = none;
      },
    )
  ]
