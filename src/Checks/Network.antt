-- ===== src/Checks/Network.antt =====
-- The theorems on the network, and on a pull over it, at concrete inputs.
use vox_desktop.Base.{
  ℕ, zero, suc, ◌≡◌, refl, true, false, string_eq, pair_eq, some, none, List, [], ◌∷◌, ◌++◌,
  replicate, arith, ◌+◌,
}
use vox_desktop.Base.Int.{pos}
use vox_desktop.Domain.{SyncRecord}
use vox_desktop.Network.{SyncRecordDto, SyncChangesResponse}
use vox_desktop.Network.JsonCodec.{to_bytes}
use vox_desktop.Network.Access.{NetworkAccess, Transport, get, execute, send_request, response_of}
use vox_desktop.Network.RealtimeSocket.{
  RealtimeSocket, Event, connect_and_authenticate, connected, disconnected, timeout, open_socket,
  new_socket, schedule_reconnect, run,
}
use vox_desktop.Network.RealtimeSocket.Reconnect.{
  IsBackedOff, backoff_ms, lost, run-new-IsBackedOff, run-lost,
}
use vox_desktop.Network.Clients.Sync.Documents.{changes_document}
use vox_desktop.Services.Sync.{PullEnv, pull_collection}
use vox_desktop.Services.Sync.Pages.{page_records, store_all}
use vox_desktop.Services.Sync.Served.{
  client_env, IsPage, Served, last, more, pull_collection-Served,
}
use vox_desktop.Checks.Library.{qt, qt_laws}

abbrev dropped : List Event
dropped =
    connect_and_authenticate "wss://vox/v1/ws" "token"
    ∷ connected
    ∷ disconnected
    ∷ timeout
    ∷ disconnected
    ∷ []

run-new-IsBackedOff_example : IsBackedOff 5 (run qt (λ url. true) new_socket dropped).0
run-new-IsBackedOff_example = run-new-IsBackedOff qt (λ url. true) dropped (omega arith)

abbrev connecting : RealtimeSocket
connecting = record {
  reconnect_timer = none;
  reconnect_attempt = pos 0;
  url = "wss://vox/v1/ws";
  access_token = "token";
}

run-lost_example :
    ((run qt (λ url. true) connecting (lost 3)).1
      ≡ replicate 3 (open_socket "wss://vox/v1/ws" "token"))
    × ((schedule_reconnect (run qt (λ url. true) connecting (lost 3)).0).reconnect_timer
        ≡ some (pos (backoff_ms 4)))
run-lost_example = run-lost qt (λ url. true) 3 0 connecting refl (omega arith) refl

-- A server with two pages of one record each, the second under the cursor "next".
abbrev page_of : ℕ → SyncChangesResponse
page_of page = record {
  records =
      record {
        collection = "settings";
        record_id = "theme";
        version = pos (page + 1);
        ciphertext = "x";
        deleted = false;
      }
      ∷ [];
  next_cursor = "next";
  has_more = elim page [ zero ↦ true | suc n ↦ false ];
}

abbrev server : ℕ → Transport
server page request = record {
  status_code = pos 200;
  body = to_bytes qt (changes_document (page_of page));
  failed = false;
  error_string = "";
}

abbrev net : NetworkAccess
net = record { base_url = "https://vox"; bearer_token = "token"; custom_handler = none }

first-IsPage : IsPage qt net "settings" server 0 "" (page_of 0)
unfolding get execute send_request response_of
first-IsPage = record {
  response = record {
    status = 200;
    is_status = refl;
    lower = omega arith;
    upper = omega arith;
    no_error = refl;
  };
  document = refl;
  versions = (omega arith, tt);
}

second-IsPage : IsPage qt net "settings" server 1 "next" (page_of 1)
unfolding get execute send_request response_of
second-IsPage = record {
  response = record {
    status = 200;
    is_status = refl;
    lower = omega arith;
    upper = omega arith;
    no_error = refl;
  };
  document = refl;
  versions = (omega arith, tt);
}

abbrev clock : ℕ → SyncRecordDto → ℕ
clock page dto = page

abbrev client : PullEnv
client = client_env qt net "settings" server clock

abbrev served : List SyncRecord
served =
    page_records qt client "settings" 0 (page_of 0).records
    ++ page_records qt client "settings" 1 (page_of 1).records

two_pages-Served : Served qt net "settings" server clock 2 0 "" served
two_pages-Served =
    more 1 0 "" (page_of 0) (page_records qt client "settings" 1 (page_of 1).records) first-IsPage
      refl (last 1 "next" (page_of 1) second-IsPage refl)

pull_collection-Served_example :
    pull_collection qt client "settings" 3 [] ≡ some (true, store_all served [])
pull_collection-Served_example =
    pull_collection-Served qt net "settings" qt_laws server clock 2 3 served [] two_pages-Served
      (omega arith)
