-- ===== src/Checks/Auth.antt =====
-- The theorems on sessions that are kept and ended at concrete inputs.
use vox_desktop.Base.{
  ◌≡◌, refl, true, false, string_eq, ◌==◌, codes, some, none, [], ◌∷◌, if◌then◌else◌, arith,
}
use vox_desktop.Base.Int.{pos}
use vox_desktop.Base.Dict.{lookup, remove}
use vox_desktop.Qt.Json.{Fields, nil, text, insert, value}
use vox_desktop.Domain.{Account}
use vox_desktop.Network.{RefreshResponse, AuthSessionResponse}
use vox_desktop.Network.JsonCodec.{to_bytes}
use vox_desktop.Network.Parsing.{get_string, parse_refresh_response}
use vox_desktop.Network.Access.{
  NetworkAccess, NetworkResponse, Transport, post_json, execute, send_request, response_of,
}
use vox_desktop.Network.Responses.Verdict.{IsOk, parse_typed_response-accepted}
use vox_desktop.Network.Clients.Auth
use vox_desktop.Network.Clients.Sync.Documents.{parse_object-to_bytes}
use vox_desktop.Storage.Accounts.{active_account, delete_account}
use vox_desktop.Storage.Table.{order_by, insert_row}
use vox_desktop.Crypto.Vault.{closed, load_secret, unlock_with_password}
use vox_desktop.Crypto.Vault.Reopen.{IsOpen}
use vox_desktop.Services.Auth.{AuthService, SessionEnv, refresh_token_name, persist_session}
use vox_desktop.Services.Auth.Restore.{restore_session, logout}
use vox_desktop.Services.Auth.Sessions.{IsRefreshed, refreshed_context, restore_session-persisted}
use vox_desktop.Services.Auth.Logout.{logout-forgets}
use vox_desktop.Checks.Library.{sodium, sodium_laws, counting, counting-IsDraw, qt, qt_laws}
use vox_desktop.Checks.Vault.{opened, opened-IsOpen, working}

abbrev net : NetworkAccess
net = record { base_url = "https://vox"; bearer_token = ""; custom_handler = none }

abbrev pub service : AuthService
service = record {
  context = none;
  network = net;
  accounts = [];
  vault = opened;
  prekeys = record { next_signed_prekey_id = pos 1 };
  server_id = "default";
  device_id = "d1";
}

-- A server that answers every request with a document.
abbrev pub answering : Fields → Transport
answering document request = record {
  status_code = pos 200;
  body = to_bytes qt document;
  failed = false;
  error_string = "";
}

abbrev pub session_document : Fields
session_document =
    insert
      (insert (insert (insert nil "user_id" (text "u1")) "access_token" (text "access"))
        "refresh_token" (text "refresh"))
      "device_status" (text "active")

abbrev pub session : AuthSessionResponse
session = record {
  user_id = "u1";
  access_token = "access";
  refresh_token = "refresh";
  device_status = "active";
  sync_key_version = pos 0;
}

abbrev refresh_document : Fields
refresh_document =
    insert (insert nil "access_token" (text "access2")) "refresh_token" (text "refresh2")

-- The account of the user's latest login.
abbrev ann : Account
ann = record {
  account_id = "a2";
  server_id = "default";
  user_id = "u1";
  username = "ann";
  active_device_id = "d1";
  refresh_token_ciphertext = codes "refresh";
  last_login = 9;
}

abbrev tokens : RefreshResponse
tokens = record { access_token = "access2"; refresh_token = "refresh2" }

abbrev pub env : SessionEnv
env = record {
  transport = answering session_document;
  account_id = "a1";
  now_ms = 5;
  draw = counting 9;
  disk = working;
  runs_active = true;
  runs_upsert = true;
  runs_delete = true;
}

abbrev later : SessionEnv
later = record env { transport = answering refresh_document; now_ms = 9 }

-- The service at the next start, with the vault that the password opens from the file.
abbrev restart : AuthService → AuthService
restart left = record left {
  context = none;
  network = net;
  vault =
      (unlock_with_password qt sodium (counting 1) (counting 2) working "pw"
        (closed left.vault.file)).1;
}

abbrev restarted : AuthService
restarted = restart (persist_session qt sodium env "ann" session service).1

abbrev pub ok_response : Fields → NetworkResponse
ok_response document = record {
  status_code = pos 200;
  body = to_bytes qt document;
  error_message = "";
}

pub ok_response-IsOk : (document : Fields) → IsOk (ok_response document)
ok_response-IsOk document = record {
  status = 200;
  is_status = refl;
  lower = omega arith;
  upper = omega arith;
  no_error = refl;
}

tokens-parse : parse_refresh_response refresh_document ≡ some tokens
unfolding parse_refresh_response get_string insert value
tokens-parse = refl

answered :
    Auth.refresh qt
      (answering refresh_document)
      net
      (record { refresh_token = "refresh"; device_id = "d1" })
    ≡ record { ok = true; status_code = pos 200; error = ""; payload = some tokens }
unfolding Auth.refresh post_json execute send_request response_of
answered =
    parse_typed_response-accepted qt parse_refresh_response (ok_response refresh_document)
      refresh_document tokens (ok_response-IsOk refresh_document)
      (parse_object-to_bytes qt qt_laws refresh_document) tokens-parse

tokens-IsRefreshed : IsRefreshed qt qt_laws sodium sodium_laws later restarted "d1" "refresh" tokens
tokens-IsRefreshed = record { accepted = rw answered refl; tokens = rw answered refl }

pub kept : (persist_session qt sodium env "ann" session service).0 ≡ true
kept =
    let (done, reopened, restored, context, token) =
      restore_session-persisted qt qt_laws sodium sodium_laws "pw" (counting 1) (counting 2) working
        env later "ann" session tokens service restarted opened-IsOpen refl refl (counting-IsDraw 9)
        refl refl refl (unfold lookup in refl) tt
        (record { reopened_vault = refl; same_accounts = refl }) refl refl tokens-IsRefreshed in
    done

restore_session-persisted_example :
    let (done, left) = persist_session qt sodium env "ann" session service in
    let (restored, s3) = restore_session qt sodium later restarted in
    (done ≡ true)
    × (unlock_with_password qt sodium
          (counting 1)
          (counting 2)
          working
          "pw"
          (closed left.vault.file)
        ≡ (true, left.vault))
    × (restored ≡ true)
    × (s3.context
        ≡ some (refreshed_context qt qt_laws sodium sodium_laws service "ann" session tokens))
    × (s3.network.bearer_token ≡ "access2")
restore_session-persisted_example =
    restore_session-persisted qt qt_laws sodium sodium_laws "pw" (counting 1) (counting 2) working
      env later "ann" session tokens service restarted opened-IsOpen refl refl (counting-IsDraw 9)
      refl refl refl (unfold lookup in refl) tt
      (record { reopened_vault = refl; same_accounts = refl }) refl refl tokens-IsRefreshed

-- A vault with the user's token, and two accounts of the user.
abbrev signed_in : AuthService
signed_in = record service {
  context = some (record {
    user_id = "u1";
    username = "ann";
    device_id = "d1";
    access_token = "access";
    refresh_token = "refresh";
  });
  vault = record opened { secrets = ("refresh_token/u1", codes "refresh") ∷ [] };
  accounts = ("a2", ann) ∷ ("a1", record ann { account_id = "a1"; last_login = 5 }) ∷ [];
}

signed_in-IsOpen : IsOpen qt qt_laws sodium sodium_laws "pw" signed_in.vault
signed_in-IsOpen = record {
  is_unlocked = opened-IsOpen.is_unlocked;
  key = opened-IsOpen.key;
  key_size = opened-IsOpen.key_size;
  salt_size = opened-IsOpen.salt_size;
  distinct = (unfold lookup in refl, tt);
}

abbrev signed_out : AuthService
signed_out = restart (logout qt sodium env signed_in).1

ann-active : active_account true signed_in.accounts ≡ some ann
unfolding active_account order_by insert_row
ann-active = refl

other-active :
    active_account true signed_out.accounts
    ≡ some (record ann { account_id = "a1"; last_login = 5 })
unfolding active_account order_by insert_row logout delete_account remove
other-active = refl

token_there : load_secret signed_in.vault (refresh_token_name "u1") ≡ some (codes "refresh")
unfolding load_secret lookup
token_there = refl

logout-forgets_example :
    let (done, s') = logout qt sodium env signed_in in
    (done ≡ (Auth.logout qt env.transport net).ok)
    × (s'.context ≡ none)
    × (s'.network.bearer_token ≡ "")
    × (lookup s'.accounts "a2" ≡ none)
    × (load_secret s'.vault (refresh_token_name "u2") ≡ (
        if refresh_token_name "u1" == refresh_token_name "u2"
        then none
        else load_secret signed_in.vault (refresh_token_name "u2")))
    × (restore_session qt sodium later signed_out ≡ (false, signed_out))
logout-forgets_example =
    logout-forgets qt qt_laws sodium sodium_laws "pw" (counting 1) (counting 2) working env later
      signed_in signed_out _ ann (record ann { account_id = "a1"; last_login = 5 })
      (codes "refresh") "u2" signed_in-IsOpen refl refl (counting-IsDraw 9) refl refl ann-active
      refl token_there refl (record { reopened_vault = refl; same_accounts = refl }) other-active
      refl
