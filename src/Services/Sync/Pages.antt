-- ===== src/Services/Sync/Pages.antt =====
-- src/services/SyncService.cpp: a pull stores the records of all pages, and it ends where they do.
use vox_desktop.Base.{
  ℕ, zero, suc, ◌+◌, ◌≤◌, ◌<◌, ◌≡◌, ◌≢◌, ◌∙◌, ◌⊎◌, refl, sym, ap, String, string_eq, pair_eq, Bool,
  true, false, not, ◌||◌, nat_beq, nat_beq_iff, subst, Bool-cases, Option-cases, inl, inr, Option,
  none, some, List, [], ◌∷◌, ◌++◌, arith,
}
use mathlib.Core.Option.{some-injective}
use vox_desktop.Qt.{Qt}
use vox_desktop.Domain.{SyncRecord}
use vox_desktop.Network.{ApiResult, SyncRecordDto, SyncChangesResponse}
use vox_desktop.Storage.SyncRecords.{SyncTable, upsert_record}
use vox_desktop.Services.Sync.{
  PullEnv, local_record, store_page, handle_page, pull_pages, pull_collection,
  sync_changes_page_size,
}

-- The records stored one after another.
unfoldable pub store_all : List SyncRecord → SyncTable → SyncTable
store_all [] t = t
store_all (r ∷ rs) t = store_all rs (upsert_record true r t).1

pub store_all-append :
    (rs qs : List SyncRecord) (t : SyncTable)
    → store_all (rs ++ qs) t ≡ store_all qs (store_all rs t)
unfolding store_all
store_all-append [] qs t = refl
store_all-append (r ∷ rs) qs t = store_all-append rs qs (upsert_record true r t).1

module _ (qt : Qt) (env : PullEnv) (collection : String) where
  unfoldable pub page_records : ℕ → List SyncRecordDto → List SyncRecord
  page_records page [] = []
  page_records page (dto ∷ dtos) =
      local_record qt (env.now_ms page dto) dto ∷ page_records page dtos

  abbrev pub answer_to : ℕ → String → ApiResult SyncChangesResponse
  answer_to page cursor = env.changes page collection cursor sync_changes_page_size

  -- The records of the pages from one on, each page asked for with the cursor of the page before,
  -- up to the first that says there are no more.
  pub data Pulled : ℕ → String → List SyncRecord → Type 0 where
    last :
        (page : ℕ) (cursor : String) (changes : SyncChangesResponse)
        → (answer_to page cursor).ok ≡ true
        → (answer_to page cursor).payload ≡ some changes
        → changes.has_more ≡ false
        → Pulled page cursor (page_records page changes.records)
    more :
        (page : ℕ) (cursor : String) (changes : SyncChangesResponse) (rest : List SyncRecord)
        → (answer_to page cursor).ok ≡ true
        → (answer_to page cursor).payload ≡ some changes
        → changes.has_more ≡ true
        → Pulled (suc page) changes.next_cursor rest
        → Pulled page cursor (page_records page changes.records ++ rest)

  pub store_page-step :
      (page : ℕ) (dto : SyncRecordDto) (dtos : List SyncRecordDto) (t : SyncTable)
      → env.runs page dto ≡ true
      → store_page qt env page (dto ∷ dtos) t
        ≡ store_page qt env page dtos
            (upsert_record true (local_record qt (env.now_ms page dto) dto) t).1
  unfolding store_page upsert_record
  store_page-step page dto dtos t h = rw h refl

  store_page-stop :
      (page : ℕ) (dto : SyncRecordDto) (dtos : List SyncRecordDto) (t : SyncTable)
      → env.runs page dto ≡ false
      → store_page qt env page (dto ∷ dtos) t ≡ (false, t)
  unfolding store_page upsert_record
  store_page-stop page dto dtos t h = rw h refl

  store_page-all :
      (page : ℕ) (dtos : List SyncRecordDto) (t t' : SyncTable)
      → store_page qt env page dtos t ≡ (true, t')
      → t' ≡ store_all (page_records page dtos) t
  unfolding store_page store_all page_records
  store_page-all page [] t t' h = sym (ap (λ (p : Bool × SyncTable). p.1) h)
  store_page-all page (dto ∷ dtos) t t' h = elim (Bool-cases (env.runs page dto)) [
    | inl runs ↦ store_page-all page dtos _ t' (sym (store_page-step page dto dtos t runs) ∙ h)
    | inr fails ↦
        let clash : false ≡ true =
          ap (λ (p : Bool × SyncTable). p.0) (sym (store_page-stop page dto dtos t fails) ∙ h) in
        absurd (ground arith)
  ]

  -- A round that ends in success stored its page, and was the last or went on to one that did.
  handle_page-true :
      (page : ℕ) (answer : ApiResult SyncChangesResponse)
      (next : String → SyncTable → Option (Bool × SyncTable)) (t t' : SyncTable)
      → handle_page qt env page answer next t ≡ some (true, t')
      → (changes : SyncChangesResponse) × (answer.ok ≡ true)
        × (answer.payload ≡ some changes)
        × ((u : SyncTable) × (store_page qt env page changes.records t ≡ (true, u))
            × (((changes.has_more ≡ false) × (t' ≡ u))
                ⊎ ((changes.has_more ≡ true) × (next changes.next_cursor u ≡ some (true, t')))))
  unfolding handle_page
  handle_page-true page answer next t t' h = elim (Option-cases answer.payload) [
    | inl nothing ↦ absurd (ground arith)
    | inr (changes, is) ↦
        let stored : Bool × SyncTable = store_page qt env page changes.records t in
        let kept : stored.0 ≡ true = elim (Bool-cases stored.0) [
          | inl kept ↦ kept
          | inr lost ↦ absurd (ground arith)
        ] in
        (
          changes,
          ground arith,
          is,
          (
            stored.1,
            ap (λ (b : Bool). (b, stored.1)) kept,
            elim (Bool-cases changes.has_more) [
              | inl again ↦ inr (again, ground arith)
              | inr done ↦
                  let same : some (true, stored.1) ≡ some (true, t') = ground arith in
                  inl (done, sym (ap (λ (p : Bool × SyncTable). p.1) (some-injective _ _ same)))
            ],
          ),
        )
  ]

  pull_pages-true :
      (fuel page : ℕ) (cursor : String) (t t' : SyncTable)
      → pull_pages qt env collection fuel page cursor t ≡ some (true, t')
      → (rs : List SyncRecord) × Pulled page cursor rs × (t' ≡ store_all rs t)
  unfolding pull_pages
  pull_pages-true zero page cursor t t' h = absurd (ground arith)
  pull_pages-true (suc fuel) page cursor t t' h =
      let (changes, ok, is, (u, stored, round)) =
        handle_page-true page (answer_to page cursor) (pull_pages qt env collection fuel (suc page))
          t t' h in
      let kept : u ≡ store_all (page_records page changes.records) t =
        store_page-all page changes.records t u stored in
      elim round [
        | inl (done, same) ↦ (
          page_records page changes.records,
          Pulled.last page cursor changes ok is done,
          same ∙ kept,
        )
        | inr (again, went_on) ↦
            let (rest, pulled, end) =
              pull_pages-true fuel (suc page) changes.next_cursor u t' went_on in
            (
              page_records page changes.records ++ rest,
              Pulled.more page cursor changes rest ok is again pulled,
              end
                  ∙ ap (store_all rest) kept
                  ∙ sym (store_all-append (page_records page changes.records) rest t),
            )
      ]

  -- Where `pullCollection` returns true, the server answered every request with a page, the last one
  -- without more to come, and the table is the one before with the records of these pages stored
  -- one after another in the order in which they came.
  pub pull_collection-true :
      (fuel : ℕ) (t t' : SyncTable)
      → pull_collection qt env collection fuel t ≡ some (true, t')
      → (rs : List SyncRecord) × Pulled 0 "" rs × (t' ≡ store_all rs t)
  unfolding pull_collection
  pull_collection-true fuel t t' h = pull_pages-true fuel 0 "" t t' h

  -- An answer after which the loop is left.
  abbrev pub is_end : ApiResult SyncChangesResponse → Bool
  is_end answer = elim answer.payload [
    | none ↦ true
    | some changes ↦ not answer.ok || not changes.has_more
  ]

  handle_page-end :
      (page : ℕ) (answer : ApiResult SyncChangesResponse)
      (next : String → SyncTable → Option (Bool × SyncTable)) (t : SyncTable)
      → is_end answer ≡ true
      → handle_page qt env page answer next t ≢ none
  unfolding handle_page
  handle_page-end page answer next t h e = ground arith

  handle_page-none :
      (page : ℕ) (answer : ApiResult SyncChangesResponse)
      (next : String → SyncTable → Option (Bool × SyncTable)) (t : SyncTable)
      → handle_page qt env page answer next t ≡ none
      → (cursor : String) × ((u : SyncTable) × (next cursor u ≡ none))
  unfolding handle_page
  handle_page-none page answer next t h = elim (Option-cases answer.payload) [
    | inl nothing ↦ absurd (ground arith)
    | inr (changes, is) ↦
        (changes.next_cursor, ((store_page qt env page changes.records t).1, ground arith))
  ]

  pull_pages-end :
      (fuel page ending : ℕ) (cursor : String) (t : SyncTable)
      → ((c : String) → is_end (answer_to ending c) ≡ true)
      → page ≤ ending
      → ending < page + fuel
      → pull_pages qt env collection fuel page cursor t ≢ none
  unfolding pull_pages
  pull_pages-end zero page ending cursor t ends hp hf e = omega arith
  pull_pages-end (suc fuel) page ending cursor t ends hp hf e =
      elim (Bool-cases (nat_beq page ending)) [
        | inl same ↦
            let here : page ≡ ending = (nat_beq_iff page ending).0 same in
            handle_page-end page (answer_to page cursor)
              (pull_pages qt env collection fuel (suc page)) t
              (subst (λ (n : ℕ). is_end (answer_to n cursor) ≡ true) (sym here) (ends cursor)) e
        | inr apart ↦
            let (c, (u, e')) =
              handle_page-none page (answer_to page cursor)
                (pull_pages qt env collection fuel (suc page)) t e in
            pull_pages-end fuel (suc page) ending c u ends (ground arith) (omega arith) e'
      ]

  -- If the server ends the listing on some page, whatever the cursor, then that many rounds and one
  -- are enough for `pullCollection` to return.
  pub pull_collection-ends :
      (fuel ending : ℕ) (t : SyncTable)
      → ((c : String) → is_end (answer_to ending c) ≡ true)
      → ending < fuel
      → pull_collection qt env collection fuel t ≢ none
  unfolding pull_collection
  pull_collection-ends fuel ending t ends h =
      pull_pages-end fuel 0 ending "" t ends (omega arith) (omega arith)
