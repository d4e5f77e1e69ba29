-- ===== src/Services/Sync/LastWins.antt =====
-- src/services/SyncService.cpp: which version of a record is kept when several are stored.
use vox_desktop.Base.{
  ◌≡◌, ◌∙◌, refl, ap, String, string_eq, pair_eq, ◌==◌, Bool-cases, inl, inr, Option, none, some,
  List, [], ◌∷◌, if◌then◌else◌, true,
}
use vox_desktop.Base.Dict.{lookup}
use vox_desktop.Domain.{SyncRecord}
use vox_desktop.Storage.Table.Rows.{lookup-upsert, upsert-IsTable}
use vox_desktop.Storage.SyncRecords.{
  SyncRow, SyncTable, sync_row, sync_record_of, set_sync, upsert_record,
}
use vox_desktop.Storage.SyncRecords.Listing.{IsSync, sync_key, merged_row, read_back}
use vox_desktop.Services.Sync.Pages.{store_all}

abbrev pub read_row : Option SyncRow → Option SyncRecord
read_row none = none
read_row (some row) = some (sync_record_of row)

-- The stored record of a collection under an id.
abbrev pub stored_record : SyncTable → String × String → Option SyncRecord
stored_record t key = read_row (lookup t key)

-- The last record with a key in a list, or else the one that was there.
pub last_with : String × String → List SyncRecord → Option SyncRecord → Option SyncRecord
last_with key [] old = old
last_with key (r ∷ rs) old =
    last_with key rs (if (r.collection, r.record_id) == key then some r else old)

upsert_record-IsSync :
    (r : SyncRecord) (t : SyncTable) → IsSync t → IsSync (upsert_record true r t).1
unfolding upsert_record
upsert_record-IsSync r t s = upsert-IsTable set_sync sync_key t (sync_row r) (λ old new e. e) s

stored_record-upsert :
    (r : SyncRecord) (t : SyncTable) (key : String × String)
    → IsSync t
    → stored_record (upsert_record true r t).1 key
      ≡ (if (r.collection, r.record_id) == key then some r else stored_record t key)
unfolding upsert_record
stored_record-upsert r t key s =
    ap read_row (lookup-upsert set_sync t (r.collection, r.record_id) key (sync_row r))
    ∙ elim (Bool-cases ((r.collection, r.record_id) == key)) [
      | inl same ↦ rw same (
          ap (λ (row : SyncRow). some (sync_record_of row)) (merged_row r t s)
          ∙ ap (λ (q : SyncRecord). some q) (read_back r))
      | inr other ↦ rw other refl
    ]

-- In a table with each row once, under its key: storing records one after another leaves under each
-- key the last record with that key, whatever its version, or what was there if none has it.
pub store_all-last_wins :
    (rs : List SyncRecord) (t : SyncTable) (key : String × String)
    → IsSync t
    → stored_record (store_all rs t) key ≡ last_with key rs (stored_record t key)
unfolding store_all last_with
store_all-last_wins [] t key s = refl
store_all-last_wins (r ∷ rs) t key s =
    store_all-last_wins rs (upsert_record true r t).1 key (upsert_record-IsSync r t s)
    ∙ ap (last_with key rs) (stored_record-upsert r t key s)
