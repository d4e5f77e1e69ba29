-- ===== src/Services/Auth/Logout.antt =====
-- src/services/AuthService.cpp: nothing of a session is left after `logout`.
use vox_desktop.Base.{
  Bytes, ◌&&◌, sym, ◌≡◌, ◌∙◌, refl, String, string_eq, ◌==◌, ==-self, true, false, none, some,
  text_is_empty, if◌then◌else◌,
}
use vox_desktop.Base.Dict.{lookup, lookup-remove}
use vox_desktop.Qt.{Qt, QtLaws}
use vox_desktop.Domain.{Account}
use vox_desktop.Crypto.Sodium.{Sodium, SodiumLaws, Draw, IsDraw}
use vox_desktop.Crypto.Vault.{
  VaultService, Disk, closed, load_secret, remove_secret, unlock_with_password,
}
use vox_desktop.Crypto.Vault.Reopen.{IsOpen}
use vox_desktop.Crypto.Vault.Durability.{IsSaved, remove_secret_durable, load_secret-eq}
use vox_desktop.Storage.Accounts.{AccountsTable, active_account, delete_account}
use vox_desktop.Network.Access.{set_bearer_token}
use vox_desktop.Network.Clients.Auth
use vox_desktop.Services.Auth.{AuthContext, AuthService, SessionEnv, refresh_token_name}
use vox_desktop.Services.Auth.Restore.{restore_session, forget, logout}
use vox_desktop.Services.Auth.Sessions.{IsRestart, refresh_token_name_filled}

delete_account-lookup :
    (t : AccountsTable) (id : String)
    → text_is_empty id ≡ false
    → lookup (delete_account true id t).1 id ≡ none
unfolding delete_account
delete_account-lookup t id filled = rw filled (lookup-remove t id id ∙ rw (==-self id) refl)

module _ (qt : Qt) (qt_laws : QtLaws qt) (lib : Sodium) (laws : SodiumLaws lib) where
  logout_lem :
      (env : SessionEnv) (s : AuthService) (context : AuthContext)
      → s.context ≡ some context
      → let (done, s') = logout qt lib env s in
        (done ≡ (Auth.logout qt env.transport s.network).ok)
        × (s'.context ≡ none)
        × (s'.network.bearer_token ≡ "")
        × (s'.vault ≡ (forget qt lib env (active_account env.runs_active s.accounts) s).vault)
        × (s'.accounts ≡ (forget qt lib env (active_account env.runs_active s.accounts) s).accounts)
  unfolding logout set_bearer_token
  logout_lem env s context there = rw there (refl, refl, refl, refl, refl)

  no_token :
      (env : SessionEnv) (s : AuthService) (b : Account)
      → active_account env.runs_active s.accounts ≡ some b
      → load_secret s.vault (refresh_token_name b.user_id) ≡ none
      → restore_session qt lib env s ≡ (false, s)
  unfolding restore_session
  no_token env s b found gone = rw (restore_session, found, gone) refl

  -- A vault that a secret was removed from opens again without it.
  removed-reopens :
      (password : String) (draw draw_salt draw_nonce : Draw) (disk next_disk : Disk)
      (v : VaultService) (name : String) (secret : Bytes)
      → IsOpen qt qt_laws lib laws password v
      → IsDraw draw
      → text_is_empty password ≡ false
      → text_is_empty name ≡ false
      → next_disk.opens_read ≡ true
      → disk.opens_write && disk.commits ≡ true
      → load_secret v name ≡ some secret
      → let v' = (remove_secret qt lib draw disk v name).1 in
        unlock_with_password qt lib draw_salt draw_nonce next_disk password (closed v'.file)
        ≡ (true, v')
  unfolding IsSaved
  removed-reopens password draw draw_salt draw_nonce disk next_disk v name secret o d hp hn hr kept
        held =
      let durable =
        remove_secret_durable qt qt_laws lib laws password draw draw_salt draw_nonce disk next_disk
          v name name o d hp hn hn hr in
      let present : lookup v.secrets name ≡ some secret =
        sym (load_secret-eq qt qt_laws lib laws password v name o hn) ∙ held in
      let (is_open, secrets, saved, written) = rw present at durable.0 in
      rw (saved, kept) at written

  -- Where libsodium and Qt keep their laws: `logout` of a session, on a vault that is open under a
  -- password that is not empty, with the account `a` as the active one, its user's token in the
  -- vault, a vault file that is opened and committed and a database that deletes the account,
  -- returns what the server answers. Whatever that is, there is no context and no bearer token
  -- afterwards, the account is gone, and of the vault's secrets that are named after users' tokens
  -- the one of the account's user is gone and the others are what they were. A service that is
  -- started over the accounts and the vault's file, which it can read, restores no session of that
  -- user, though another account of the same user is the active one.
  pub logout-forgets :
      (password : String) (draw_salt draw_nonce : Draw) (next_disk : Disk) (env next : SessionEnv)
      (s s2 : AuthService) (context : AuthContext) (a b : Account) (token : Bytes) (other : String)
      → IsOpen qt qt_laws lib laws password s.vault
      → text_is_empty password ≡ false
      → next_disk.opens_read ≡ true
      → IsDraw env.draw
      → env.disk.opens_write && env.disk.commits ≡ true
      → s.context ≡ some context
      → active_account env.runs_active s.accounts ≡ some a
      → text_is_empty a.account_id ≡ false
      → load_secret s.vault (refresh_token_name a.user_id) ≡ some token
      → env.runs_delete ≡ true
      → IsRestart qt qt_laws lib laws password draw_salt draw_nonce next_disk
          (logout qt lib env s).1
          s2
      → active_account next.runs_active s2.accounts ≡ some b
      → b.user_id ≡ a.user_id
      → let (done, s') = logout qt lib env s in
        (done ≡ (Auth.logout qt env.transport s.network).ok)
        × (s'.context ≡ none)
        × (s'.network.bearer_token ≡ "")
        × (lookup s'.accounts a.account_id ≡ none)
        × (load_secret s'.vault (refresh_token_name other) ≡ (
            if refresh_token_name a.user_id == refresh_token_name other
            then none
            else load_secret s.vault (refresh_token_name other)))
        × (restore_session qt lib next s2 ≡ (false, s2))
  logout-forgets password draw_salt draw_nonce next_disk env next s s2 context a b token other o hp
        hr d kept there found filled held runs restart found_next same_user =
      let (done, no_context, no_bearer, vault, accounts) = logout_lem env s context there in
      let name = refresh_token_name a.user_id in
      let durable = λ (other_name : String) (named : text_is_empty other_name ≡ false).
        remove_secret_durable qt qt_laws lib laws password env.draw draw_salt draw_nonce env.disk
          next_disk s.vault name other_name o d hp (refresh_token_name_filled a.user_id) named hr in
      let gone = λ (other_name : String) (named : text_is_empty other_name ≡ false).
        (durable other_name named).1 in
      let reopens =
        removed-reopens password env.draw draw_salt draw_nonce env.disk next_disk s.vault name token
          o d hp (refresh_token_name_filled a.user_id) hr kept held in
      (
        done,
        no_context,
        no_bearer,
        rw (accounts, found, runs) (delete_account-lookup s.accounts a.account_id filled),
        rw (vault, found) (gone (refresh_token_name other) (refresh_token_name_filled other)),
        no_token next s2 b found_next (
            rw (restart.reopened_vault, vault, found, reopens, same_user)
              (gone (refresh_token_name a.user_id) (refresh_token_name_filled a.user_id)
                ∙ rw (==-self (refresh_token_name a.user_id)) refl)),
      )
