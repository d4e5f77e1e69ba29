-- ===== src/Checks/Services.antt =====
-- The theorems on the services and on the keys in the vault at concrete inputs.
use Prim.Native.String.{◌++◌ as append_text}
use vox_desktop.Base.{
  zero, suc, ◌≡◌, ◌≢◌, refl, true, false, String, string_eq, pair_eq, nat_eq, none, some, List, [],
  ◌∷◌, arith,
}
use vox_desktop.Base.Int.{pos}
use vox_desktop.Base.Dict.{lookup}
use vox_desktop.Domain.{SyncRecord}
use vox_desktop.Network.{VoidResult, SyncRecordDto, AttachmentsApi}
use vox_desktop.Storage.Messages.{MessageRow}
use vox_desktop.Storage.Jobs.Due.{IsJobs-empty}
use vox_desktop.Storage.SyncRecords.{SyncTable, upsert_record}
use vox_desktop.Storage.FileStore.{FileStore}
use vox_desktop.Services.Sync.{
  PullEnv, pull_collection, pull_pages, handle_page, store_page, local_record,
}
use vox_desktop.Services.Sync.Pages.{store_all, Pulled, pull_collection-true, pull_collection-ends}
use vox_desktop.Services.Sync.LastWins.{stored_record, last_with, store_all-last_wins}
use vox_desktop.Services.MessageSend.{SendEnv, Outbox, send_ciphertext}
use vox_desktop.Services.MessageSend.Delivery.{IsSent, send_ciphertext-IsSent}
use vox_desktop.Crypto.Vault.{Disk}
use vox_desktop.Checks.Library.{qt}
use vox_desktop.Checks.Storage.{empty-IsMessages, settings, no_records-IsSync}

abbrev change : SyncRecordDto
change = record {
  collection = "settings";
  record_id = "theme";
  version = pos 3;
  ciphertext = "x";
  deleted = false;
}

-- A server with two pages of one record each.
abbrev two_pages : PullEnv
two_pages = record {
  changes = λ page collection cursor limit. record {
    ok = true;
    status_code = pos 200;
    error = "";
    payload = some (record {
      records = change ∷ [];
      next_cursor = "next";
      has_more = elim page [ zero ↦ true | suc n ↦ false ];
    });
  };
  now_ms = λ page dto. page;
  runs = λ page dto. true;
}

abbrev pulled : SyncTable
pulled =
    (upsert_record true (local_record qt 1 change)
      (upsert_record true (local_record qt 0 change) []).1).1

pull_returns : pull_collection qt two_pages "settings" 2 [] ≡ some (true, pulled)
unfolding pull_collection pull_pages handle_page store_page upsert_record
pull_returns = refl

pull_collection-true_example :
    (rs : List SyncRecord) × Pulled qt two_pages "settings" 0 "" rs × (pulled ≡ store_all rs [])
pull_collection-true_example = pull_collection-true qt two_pages "settings" 2 [] pulled pull_returns

pull_collection-ends_example : pull_collection qt two_pages "settings" 2 [] ≢ none
pull_collection-ends_example =
    pull_collection-ends qt two_pages "settings" 2 1 [] (λ c. refl) (omega arith)

store_all-last_wins_example :
    stored_record
      (store_all (settings ∷ record settings { version = pos 1 } ∷ []) [])
      ("settings", "theme")
    ≡ last_with
        ("settings", "theme")
        (settings ∷ record settings { version = pos 1 } ∷ [])
        (stored_record [] ("settings", "theme"))
store_all-last_wins_example =
    store_all-last_wins (settings ∷ record settings { version = pos 1 } ∷ []) []
      ("settings", "theme") no_records-IsSync

-- A server that is out of reach.
abbrev offline : SendEnv
offline = record {
  envelope_id = "e1";
  send_envelope =
      λ request. record { ok = false; status_code = pos 0; error = "timeout"; payload = none };
  created_ms = 10;
  queued_ms = 11;
  runs_message = true;
  runs_job = true;
}

abbrev empty_outbox : Outbox
empty_outbox = record { messages = []; jobs = record { jobs = []; last_id = 0 } }

not_there : lookup {K = String} {V = MessageRow} [] "e1" ≡ none
unfolding lookup
not_there = refl

send_ciphertext-IsSent_example :
    let (done, box') = send_ciphertext qt offline "c1" "d1" "x" (pos 0) empty_outbox in
    IsSent qt offline "c1" "d1" "x" (pos 0) [] 5000 empty_outbox done box'
send_ciphertext-IsSent_example =
    send_ciphertext-IsSent qt offline "c1" "d1" "x" (pos 0) 5000 empty_outbox refl empty-IsMessages
      IsJobs-empty not_there refl refl

abbrev accepted : VoidResult
accepted = record { ok = true; status_code = pos 200; error = "" }

-- A server that takes an upload under the id "a1" and then has lost it.
abbrev forgetful : AttachmentsApi
forgetful = record {
  upload_init = λ request. record {
    ok = true;
    status_code = pos 200;
    error = "";
    payload = some (record { attachment_id = "a1"; blob_path = "/a1" });
  };
  upload_chunk = λ id offset bytes. accepted;
  finalize = λ id hash. accepted;
  download = λ id. record { ok = false; status_code = pos 404; error = ""; payload = none };
}

abbrev working : Disk
working = record { opens_read = true; opens_write = true; commits = true }

abbrev store : FileStore
store = record { root_path = "/data"; files = [] }
