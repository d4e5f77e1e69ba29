-- ===== src/Services/Auth/Sessions.antt =====
-- src/services/AuthService.cpp: what a session leaves for the next start, and what remains after its
-- end.
use vox_desktop.Base.Texts.{append_filled}
use vox_desktop.Base.{
  ◌≡◌, ◌∙◌, refl, ap, String, string_eq, Bool, true, false, ◌&&◌, none, some, Bytes, is_empty,
  text_is_empty, ==-self, arith,
}
use vox_desktop.Base.Dict.{lookup, insert}
use vox_desktop.Qt.{Qt, QtLaws}
use vox_desktop.Domain.{Account}
use vox_desktop.Crypto.Sodium.{Sodium, SodiumLaws, Draw, IsDraw}
use vox_desktop.Crypto.Vault.{Disk, closed, load_secret, store_secret, unlock_with_password}
use vox_desktop.Crypto.Vault.Reopen.{IsOpen}
use vox_desktop.Crypto.Vault.Durability.{IsSaved, store_secret_durable}
use vox_desktop.Storage.Table.Rows.{merged_excluded}
use vox_desktop.Storage.Table.{upsert}
use vox_desktop.Storage.Accounts.{AccountsTable, upsert_account, active_account}
use vox_desktop.Storage.Accounts.Active.{AllEarlier, active_account-newest}
use vox_desktop.Network.{AuthSessionResponse, RefreshResponse}
use vox_desktop.Network.Access.{set_bearer_token}
use vox_desktop.Network.Clients.Auth
use vox_desktop.Services.Auth.{
  AuthContext, AuthService, SessionEnv, refresh_token_name, session_account, persist_session,
}
use vox_desktop.Services.Auth.Restore.{restore_account, refresh_session, restore_session}

pub refresh_token_name_filled :
    (user_id : String) → text_is_empty (refresh_token_name user_id) ≡ false
refresh_token_name_filled user_id = append_filled _ "efresh_token/" user_id

module _ (qt : Qt) (qt_laws : QtLaws qt) (lib : Sodium) (laws : SodiumLaws lib) where
  -- The next start of the application: a service over the accounts that are left and the vault that
  -- the password opens from the file that is left.
  pub record IsRestart (password : String) (draw_salt draw_nonce : Draw) (disk : Disk)
      (left s : AuthService) : Type 0 where
    pub reopened_vault :
        s.vault
        ≡ (unlock_with_password qt lib draw_salt draw_nonce disk password
            (closed left.vault.file)).1
    pub same_accounts : s.accounts ≡ left.accounts

  pub record IsRefreshed (env : SessionEnv) (s : AuthService) (device_id refresh_token : String)
      (refreshed : RefreshResponse) : Type 0 where
    pub accepted :
        (Auth.refresh qt env.transport s.network
          (record { refresh_token = refresh_token; device_id = device_id })).ok
        ≡ true
    pub tokens :
        (Auth.refresh qt env.transport s.network
          (record { refresh_token = refresh_token; device_id = device_id })).payload
        ≡ some refreshed

  upsert_account-insert :
      (a : Account) (t : AccountsTable) → upsert_account true a t ≡ (true, insert t a.account_id a)
  unfolding upsert_account upsert
  upsert_account-insert a t =
      ap (λ (r : Account). (true, insert t a.account_id r))
        (merged_excluded (lookup t a.account_id) a)

  -- A session that is kept: the vault is open, has the token, and opens again from its file.
  pub record IsKept (password : String) (draw_salt draw_nonce : Draw) (next_disk : Disk)
      (env : SessionEnv) (username : String) (response : AuthSessionResponse) (s s' : AuthService)
      : Type 0 where
    pub is_open : IsOpen qt qt_laws lib laws password s'.vault
    pub reopens :
        unlock_with_password qt lib draw_salt draw_nonce next_disk password (closed s'.vault.file)
        ≡ (true, s'.vault)
    pub token :
        load_secret s'.vault (refresh_token_name response.user_id)
        ≡ some (qt.to_utf8 response.refresh_token)
    pub stored :
        s'.accounts
        ≡ insert s.accounts env.account_id (session_account qt lib env s username response)

  persist_session-IsKept :
      (password : String) (draw_salt draw_nonce : Draw) (next_disk : Disk) (env : SessionEnv)
      (username : String) (response : AuthSessionResponse) (s : AuthService)
      → IsOpen qt qt_laws lib laws password s.vault
      → text_is_empty password ≡ false
      → next_disk.opens_read ≡ true
      → IsDraw env.draw
      → env.disk.opens_write && env.disk.commits ≡ true
      → env.runs_upsert ≡ true
      → is_empty (qt.to_utf8 response.refresh_token) ≡ false
      → let (done, s') = persist_session qt lib env username response s in
        (done ≡ true) × IsKept password draw_salt draw_nonce next_disk env username response s s'
  unfolding persist_session IsSaved
  persist_session-IsKept password draw_salt draw_nonce next_disk env username response s o hp hr d
        kept runs filled =
      let name = refresh_token_name response.user_id in
      let secret = qt.to_utf8 response.refresh_token in
      let named = refresh_token_name_filled response.user_id in
      let ((o', same, is_saved, written), token) =
        store_secret_durable qt qt_laws lib laws password env.draw draw_salt draw_nonce env.disk
          next_disk s.vault name name secret o d hp named named filled hr in
      let saved : (store_secret qt lib env.draw env.disk s.vault name secret).0 ≡ true =
        is_saved ∙ kept in
      rw
        (
          saved,
          runs,
          upsert_account-insert (session_account qt lib env s username response) s.accounts,
        )
        (
          refl,
          record {
            is_open = o';
            reopens = rw saved at written;
            token = token ∙ rw (==-self name) refl;
            stored = refl;
          },
        )

  -- The context of a session after its tokens were refreshed.
  abbrev pub refreshed_context :
      AuthService → String → AuthSessionResponse → RefreshResponse → AuthContext
  refreshed_context s username response refreshed = record {
    user_id = response.user_id;
    username = username;
    device_id = s.device_id;
    access_token = refreshed.access_token;
    refresh_token = refreshed.refresh_token;
  }

  refresh_session_lem :
      (env : SessionEnv) (account : Account) (refreshed : RefreshResponse) (s : AuthService)
      → env.runs_upsert ≡ true
      → let (done, s') = refresh_session qt lib env account refreshed s in
        (done ≡ true) × (s'.network.bearer_token ≡ refreshed.access_token)
  unfolding refresh_session set_bearer_token upsert_account
  refresh_session_lem env account refreshed s runs = rw runs (refl, refl)

  refresh_session-context :
      (env : SessionEnv) (account : Account) (refreshed : RefreshResponse) (s : AuthService)
      → (refresh_session qt lib env account refreshed s).1.context
        ≡ some (record {
          user_id = account.user_id;
          username = account.username;
          device_id = account.active_device_id;
          access_token = refreshed.access_token;
          refresh_token = refreshed.refresh_token;
        })
  unfolding refresh_session
  refresh_session-context env account refreshed s = refl

  restore_account_lem :
      (env : SessionEnv) (account : Account) (token : Bytes) (refreshed : RefreshResponse)
      (s : AuthService)
      → IsRefreshed env s account.active_device_id (qt.from_utf8 token) refreshed
      → restore_account qt lib env account (some token) s
        ≡ refresh_session qt lib env account refreshed s
  restore_account_lem env account token refreshed s r =
      let accepted = r.accepted in let tokens = r.tokens in ground arith

  restore_session-kept :
      (password : String) (draw_salt draw_nonce : Draw) (next_disk : Disk) (env next : SessionEnv)
      (username : String) (response : AuthSessionResponse) (refreshed : RefreshResponse)
      (s left s2 : AuthService)
      → IsKept password draw_salt draw_nonce next_disk env username response s left
      → lookup s.accounts env.account_id ≡ none
      → AllEarlier env.now_ms s.accounts
      → IsRestart password draw_salt draw_nonce next_disk left s2
      → next.runs_active ≡ true
      → IsRefreshed next s2 s.device_id response.refresh_token refreshed
      → restore_session qt lib next s2
        ≡ refresh_session qt lib next (session_account qt lib env s username response) refreshed s2
  unfolding restore_session
  restore_session-kept password draw_salt draw_nonce next_disk env next username response refreshed
        s left s2 k fresh earlier restart runs r =
      let account = session_account qt lib env s username response in
      let found : active_account next.runs_active s2.accounts ≡ some account =
        rw (runs, restart.same_accounts, k.stored)
          (active_account-newest s.accounts account fresh earlier) in
      let token : load_secret s2.vault (refresh_token_name response.user_id)
          ≡ some (qt.to_utf8 response.refresh_token) =
        rw (restart.reopened_vault, k.reopens) k.token in
      let same = qt_laws.utf8_round_trip response.refresh_token in
      rw (restore_session, found, token)
        (restore_account_lem next account (qt.to_utf8 response.refresh_token) refreshed s2
          (rw same r))

  -- Where libsodium and Qt keep their laws: when the server has accepted a sign-in, the vault is open
  -- under a password that is not empty and saves the token, which is not empty, the database runs the
  -- statements, and the account's new id is not taken and its login later than all that are stored,
  -- then the session is kept, and the vault's file, if it can be read, opens into the same vault. A
  -- service that is started over the accounts and that file, and whose server takes the refresh token that was kept, for
  -- the device that signed in, restores the session: its context has the user, the name and the
  -- device of the sign-in and the new tokens, and the network the new access token.
  pub restore_session-persisted :
      (password : String) (draw_salt draw_nonce : Draw) (next_disk : Disk) (env next : SessionEnv)
      (username : String) (response : AuthSessionResponse) (refreshed : RefreshResponse)
      (s s2 : AuthService)
      → IsOpen qt qt_laws lib laws password s.vault
      → text_is_empty password ≡ false
      → next_disk.opens_read ≡ true
      → IsDraw env.draw
      → env.disk.opens_write && env.disk.commits ≡ true
      → env.runs_upsert ≡ true
      → is_empty (qt.to_utf8 response.refresh_token) ≡ false
      → lookup s.accounts env.account_id ≡ none
      → AllEarlier env.now_ms s.accounts
      → IsRestart password draw_salt draw_nonce next_disk
          (persist_session qt lib env username response s).1
          s2
      → next.runs_active ≡ true
      → next.runs_upsert ≡ true
      → IsRefreshed next s2 s.device_id response.refresh_token refreshed
      → let (done, left) = persist_session qt lib env username response s in
        let (restored, s3) = restore_session qt lib next s2 in
        (done ≡ true)
        × (unlock_with_password qt lib draw_salt draw_nonce next_disk password
              (closed left.vault.file)
            ≡ (true, left.vault))
        × (restored ≡ true)
        × (s3.context ≡ some (refreshed_context s username response refreshed))
        × (s3.network.bearer_token ≡ refreshed.access_token)
  restore_session-persisted password draw_salt draw_nonce next_disk env next username response
        refreshed s s2 o hp hr d kept runs filled fresh earlier restart runs_active runs_next r =
      let (done, k) =
        persist_session-IsKept password draw_salt draw_nonce next_disk env username response s o hp
          hr d kept runs filled in
      let restored =
        restore_session-kept password draw_salt draw_nonce next_disk env next username response
          refreshed s (persist_session qt lib env username response s).1 s2 k fresh earlier restart
          runs_active r in
      let account = session_account qt lib env s username response in
      let (kept_again, token) = refresh_session_lem next account refreshed s2 runs_next in
      (
        done,
        k.reopens,
        ap (λ (p : Bool × AuthService). p.0) restored ∙ kept_again,
        ap (λ (p : Bool × AuthService). p.1.context) restored
            ∙ refresh_session-context next account refreshed s2,
        ap (λ (p : Bool × AuthService). p.1.network.bearer_token) restored ∙ token,
      )
