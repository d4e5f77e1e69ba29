-- ===== src/Storage/SyncRecords.antt =====
-- src/storage/Repositories.cpp, `SqlSyncRepository`.
pub mod Listing
use vox_desktop.Base.{
  ℕ, Bool, false, true, not, String, string_eq, pair_eq, ◌==◌, Bytes, List, [], ltb, nat_beq, map,
  if◌then◌else◌,
}
use vox_desktop.Base.Int.{ℤ}
use vox_desktop.Base.Dict.{Dict}
use vox_desktop.Domain.{SyncRecord}
use vox_desktop.Storage.Table.{rows, upsert, keep, order_by}

pub record SyncRow : Type 0 where
  pub collection : String
  pub record_id : String
  pub version : ℤ
  pub ciphertext : Bytes
  pub updated_at_ms : ℕ
  pub tombstone : ℕ

-- The primary key is the collection and the record's id.
abbrev pub SyncTable : Type 0
SyncTable = Dict (String × String) SyncRow

abbrev pub sync_row : SyncRecord → SyncRow
sync_row r = record {
  collection = r.collection;
  record_id = r.record_id;
  version = r.version;
  ciphertext = r.ciphertext;
  updated_at_ms = r.updated_at_ms;
  tombstone = if r.tombstone then 1 else 0;
}

abbrev pub set_sync : SyncRow → SyncRow → SyncRow
set_sync old excluded = record old {
  version = excluded.version;
  ciphertext = excluded.ciphertext;
  updated_at_ms = excluded.updated_at_ms;
  tombstone = excluded.tombstone;
}

unfoldable pub upsert_record : Bool → SyncRecord → SyncTable → Bool × SyncTable
upsert_record runs r t =
    if runs then (true, upsert set_sync t (r.collection, r.record_id) (sync_row r)) else (false, t)

abbrev pub sync_record_of : SyncRow → SyncRecord
sync_record_of r = record {
  collection = r.collection;
  record_id = r.record_id;
  version = r.version;
  ciphertext = r.ciphertext;
  updated_at_ms = r.updated_at_ms;
  tombstone = not (nat_beq r.tombstone 0);
}

abbrev pub updated_later : SyncRow → SyncRow → Bool
updated_later a b = ltb b.updated_at_ms a.updated_at_ms

unfoldable pub list_records : Bool → String → SyncTable → List SyncRecord
list_records runs collection t =
    if runs
    then map sync_record_of
        (order_by updated_later (keep (λ (r : SyncRow). r.collection == collection) (rows t)))
    else []
