-- ===== src/Storage/SyncRecords/Listing.antt =====
-- src/storage/Repositories.cpp: what `listRecords` returns after `upsertRecord`.
use vox_desktop.Base.{
  ◌≡◌, ◌≢◌, refl, ap, Bool, true, false, String, string_eq, pair_eq, ◌==◌, ==-self, Option-cases,
  inl, inr, List, ◌∷◌, ltb, flag_read, subst, arith,
}
use mathlib.Core.List.{Perm}
use vox_desktop.Base.Dict.{lookup, remove}
use vox_desktop.Domain.{SyncRecord}
use vox_desktop.Storage.Table.{rows, merged, upsert, keep}
use vox_desktop.Storage.Table.Rows.{
  IsTable, upsert-IsTable, lookup-IsKeyed, keep-upsert_in, keep-upsert_out, keep-remove,
}
use vox_desktop.Storage.Table.Order.{listed-cons, listed-Perm}
use vox_desktop.Storage.SyncRecords.{
  SyncRow, SyncTable, sync_row, set_sync, sync_record_of, updated_later, upsert_record,
  list_records,
}

abbrev pub sync_key : SyncRow → String × String
sync_key r = (r.collection, r.record_id)

abbrev pub IsSync : SyncTable → Type 0
IsSync t = IsTable sync_key t

abbrev pub changed_later : SyncRecord → SyncRecord → Bool
changed_later a b = ltb b.updated_at_ms a.updated_at_ms

pub read_back : (r : SyncRecord) → sync_record_of (sync_row r) ≡ r
read_back r = rw (flag_read r.tombstone) refl

pub merged_row :
    (r : SyncRecord) (t : SyncTable)
    → IsSync t
    → merged set_sync (lookup t (r.collection, r.record_id)) (sync_row r) ≡ sync_row r
merged_row r t s = elim (Option-cases (lookup t (r.collection, r.record_id))) [
  | inl absent ↦ rw absent refl
  | inr (old, present) ↦
      let key = lookup-IsKeyed sync_key t (r.collection, r.record_id) old s.keyed present in
      let collection : old.collection ≡ r.collection = ap (λ (k : String × String). k.0) key in
      let record_id : old.record_id ≡ r.record_id = ap (λ (k : String × String). k.1) key in
      rw present (rw (collection, record_id) refl)
]

-- In a table with each row once, under its key: after `upsertRecord` has run, `listRecords` of the
-- record's collection returns the record as it was given and the collection's records under other
-- ids, and `listRecords` of another collection what it returned before, each up to order.
list_records-upsert :
    (r : SyncRecord) (t : SyncTable) (other : String)
    → IsSync t
    → other ≢ r.collection
    → let (done, t') = upsert_record true r t in
      (done ≡ true)
      × IsSync t'
      × Perm
          (list_records true r.collection t')
          (r ∷ list_records true r.collection (remove t (r.collection, r.record_id)))
      × Perm (list_records true other t') (list_records true other t)
unfolding upsert_record list_records
list_records-upsert r t other s h =
    let k : String × String = (r.collection, r.record_id) in
    let in_it : SyncRow → Bool = λ q. q.collection == r.collection in
    let in_other : SyncRow → Bool = λ q. q.collection == other in
    let t' : SyncTable = upsert set_sync t k (sync_row r) in
    let rest : SyncTable = remove t k in
    let elsewhere : (q : SyncRow) → q.collection ≡ r.collection → in_other q ≡ false =
      λ q e. ground (arith, e, h, string_eq.beq_iff q.collection other) in
    (
      refl,
      upsert-IsTable set_sync sync_key t (sync_row r) (λ old new e. e) s,
      subst
          (λ (x : SyncRecord).
            Perm (list_records true r.collection t') (x ∷ list_records true r.collection rest))
          (read_back r)
          (listed-cons sync_record_of updated_later (sync_row r) (keep in_it (rows t'))
            (keep in_it (rows rest))
            (keep-upsert_in set_sync in_it t k (sync_row r) (sync_row r) s.distinct
              (merged_row r t s) (==-self r.collection))),
      listed-Perm sync_record_of updated_later (keep in_other (rows t')) (keep in_other (rows t)) (
          subst (λ (l : List SyncRow). Perm (keep in_other (rows t')) l)
            (keep-remove in_other sync_key t k s.keyed
              (λ q e. elsewhere q (ap (λ (i : String × String). i.0) e)))
            (keep-upsert_out set_sync in_other t k (sync_row r) (sync_row r) s.distinct
              (merged_row r t s) (elsewhere (sync_row r) refl))),
    )
