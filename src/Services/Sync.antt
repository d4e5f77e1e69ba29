-- ===== src/Services/Sync.antt =====
-- src/services/SyncService.cpp. The loop over the pages runs on fuel: `none` says that the pages are
-- not at an end when the fuel is.
pub mod Pages
pub mod LastWins
pub mod Served
use vox_desktop.Base.{
  ℕ, zero, suc, String, Bool, true, false, not, ◌||◌, Option, none, some, List, [], ◌∷◌, has_value,
  if◌then◌else◌,
}
use vox_desktop.Base.Int.{ℤ, pos}
use vox_desktop.Qt.{Qt}
use vox_desktop.Domain.{SyncRecord}
use vox_desktop.Network.{ApiResult, VoidResult, SyncRecordDto, SyncChangesResponse}
use vox_desktop.Storage.SyncRecords.{SyncTable, upsert_record}

abbrev pub sync_changes_page_size : ℤ
sync_changes_page_size = pos 100

-- What happens around a pull, by the number of the page: the server's answer to a request with a
-- collection, a cursor and a limit, the clock, and whether the database stores a record.
pub record PullEnv : Type 0 where
  pub changes : ℕ → String → String → ℤ → ApiResult SyncChangesResponse
  pub now_ms : ℕ → SyncRecordDto → ℕ
  pub runs : ℕ → SyncRecordDto → Bool

module _ (qt : Qt) where
  unfoldable pub local_record : ℕ → SyncRecordDto → SyncRecord
  local_record now_ms dto = record {
    collection = dto.collection;
    record_id = dto.record_id;
    version = dto.version;
    ciphertext = qt.to_utf8 dto.ciphertext;
    updated_at_ms = now_ms;
    tombstone = dto.deleted;
  }

  unfoldable pub store_page : PullEnv → ℕ → List SyncRecordDto → SyncTable → Bool × SyncTable
  store_page env page [] t = (true, t)
  store_page env page (dto ∷ dtos) t =
      let (stored, t') =
        upsert_record (env.runs page dto) (local_record (env.now_ms page dto) dto) t in
      let rest = store_page env page dtos t' in if stored then rest else (false, t')

  -- What the loop does with an answer, with `next` for its next round.
  unfoldable pub handle_page :
      PullEnv
      → ℕ
      → ApiResult SyncChangesResponse
      → (String → SyncTable → Option (Bool × SyncTable))
      → SyncTable
      → Option (Bool × SyncTable)
  handle_page env page answer next t = elim answer.payload [
    | none ↦ some (false, t)
    | some changes ↦
        let (stored, t') = store_page env page changes.records t in
        let rest = next changes.next_cursor t' in
        if not answer.ok
        then some (false, t)
        else if not stored
        then some (false, t')
        else if changes.has_more
        then rest
        else some (true, t')
  ]

  unfoldable pub pull_pages :
      PullEnv → String → ℕ → ℕ → String → SyncTable → Option (Bool × SyncTable)
  pull_pages env collection zero page cursor t = none
  pull_pages env collection (suc fuel) page cursor t =
      handle_page env page (env.changes page collection cursor sync_changes_page_size)
        (pull_pages env collection fuel (suc page)) t

  unfoldable pub pull_collection : PullEnv → String → ℕ → SyncTable → Option (Bool × SyncTable)
  pull_collection env collection fuel t = pull_pages env collection fuel 0 "" t

  unfoldable pub push_record : (SyncRecordDto → VoidResult) → SyncRecord → Bool
  push_record put_record r =
      let dto : SyncRecordDto = record {
        collection = r.collection;
        record_id = r.record_id;
        version = r.version;
        ciphertext = qt.from_utf8 r.ciphertext;
        deleted = r.tombstone;
      } in
      (put_record dto).ok
