-- ===== src/Services/Sync/Served.antt =====
-- src/services/SyncService.cpp over src/network/SyncApi.cpp: a pull from a server that answers.
use vox_desktop.Base.{
  ℕ, zero, suc, ◌≤◌, ◌≡◌, refl, ◌∙◌, sym, ap, String, Bool, true, false, Option, some,
  if◌then◌else◌, List, [], ◌∷◌, ◌++◌, arith,
}
use vox_desktop.Qt.{Qt, QtLaws}
use vox_desktop.Domain.{SyncRecord}
use vox_desktop.Network.{SyncRecordDto, SyncChangesResponse}
use vox_desktop.Network.JsonCodec.{to_bytes}
use vox_desktop.Network.Access.{NetworkResponse, NetworkAccess, Transport}
use vox_desktop.Network.Parsing.RoundTrip.{Each}
use vox_desktop.Network.Responses.Verdict.{IsOk}
use vox_desktop.Network.Clients.Sync.{changes}
use vox_desktop.Network.Clients.Sync.Documents.{
  HasIntVersion, changes_document, changes_response, changes-answered,
}
use vox_desktop.Storage.SyncRecords.{SyncTable}
use vox_desktop.Services.Sync.{
  PullEnv, store_page, handle_page, pull_pages, pull_collection, sync_changes_page_size,
}
use vox_desktop.Services.Sync.Pages.{page_records, store_page-step, store_all, store_all-append}

store_page-runs :
    (qt : Qt) (env : PullEnv) (collection : String) (page : ℕ) (dtos : List SyncRecordDto)
    (t : SyncTable)
    → ((p : ℕ) (dto : SyncRecordDto) → env.runs p dto ≡ true)
    → store_page qt env page dtos t ≡ (true, store_all (page_records qt env collection page dtos) t)
unfolding store_page store_all page_records
store_page-runs qt env collection page [] t runs = refl
store_page-runs qt env collection page (dto ∷ dtos) t runs =
    store_page-step qt env collection page dto dtos t (runs page dto)
    ∙ store_page-runs qt env collection page dtos _ runs

module _ (qt : Qt) (net : NetworkAccess) (collection : String) where
  -- The service's surroundings when its server answers the requests one after another.
  abbrev pub client_env : (ℕ → Transport) → (ℕ → SyncRecordDto → ℕ) → PullEnv
  client_env server now_ms = record {
    changes = λ page. changes qt (server page) net;
    now_ms = now_ms;
    runs = λ page dto. true;
  }

  abbrev pub page_response : (ℕ → Transport) → ℕ → String → NetworkResponse
  page_response server page cursor =
      changes_response qt (server page) net collection cursor sync_changes_page_size

  -- The server's answer to the request for a page: the document of some changes.
  pub record IsPage (server : ℕ → Transport) (page : ℕ) (cursor : String) (c : SyncChangesResponse)
      : Type 0 where
    pub response : IsOk (page_response server page cursor)
    pub document : (page_response server page cursor).body ≡ to_bytes qt (changes_document c)
    pub versions : Each HasIntVersion c.records

  -- The pages that the server has from one on, by their number, each under the cursor of the one
  -- before, and the records on them.
  pub data Served (server : ℕ → Transport) (now_ms : ℕ → SyncRecordDto → ℕ)
      : ℕ → ℕ → String → List SyncRecord → Type 0 where
    last :
        (page : ℕ) (cursor : String) (c : SyncChangesResponse)
        → IsPage server page cursor c
        → c.has_more ≡ false
        → Served server now_ms 1 page cursor
            (page_records qt (client_env server now_ms) collection page c.records)
    more :
        (pages page : ℕ) (cursor : String) (c : SyncChangesResponse) (rest : List SyncRecord)
        → IsPage server page cursor c
        → c.has_more ≡ true
        → Served server now_ms pages (suc page) c.next_cursor rest
        → Served server now_ms
            (suc pages)
            page
            cursor
            (page_records qt (client_env server now_ms) collection page c.records ++ rest)

  module _ (laws : QtLaws qt) (server : ℕ → Transport) (now_ms : ℕ → SyncRecordDto → ℕ) where
    abbrev env : PullEnv
    env = client_env server now_ms

    page_step :
        (page : ℕ) (cursor : String) (c : SyncChangesResponse)
        (next : String → SyncTable → Option (Bool × SyncTable)) (t : SyncTable)
        → IsPage server page cursor c
        → let t' = store_all (page_records qt env collection page c.records) t in
          handle_page qt env page (env.changes page collection cursor sync_changes_page_size) next t
          ≡ (if c.has_more then next c.next_cursor t' else some (true, t'))
    unfolding handle_page
    page_step page cursor c next t k =
        rw
          (
            changes-answered qt (server page) net laws collection cursor sync_changes_page_size c
                k.response k.document k.versions,
            store_page-runs qt env collection page c.records t (λ p dto. refl),
          )
          refl

    pull_pages-Served :
        (pages fuel page : ℕ) (cursor : String) (rs : List SyncRecord) (t : SyncTable)
        → Served server now_ms pages page cursor rs
        → pages ≤ fuel
        → pull_pages qt env collection fuel page cursor t ≡ some (true, store_all rs t)
    unfolding pull_pages
    pull_pages-Served pages zero page cursor rs t (Served.last _ _ c k e) h = absurd (omega arith)
    pull_pages-Served pages zero page cursor rs t (Served.more n _ _ c rest k e s) h =
        absurd (omega arith)
    pull_pages-Served pages (suc fuel) page cursor rs t (Served.last _ _ c k e) h =
        page_step page cursor c (pull_pages qt env collection fuel (suc page)) t k ∙ rw e refl
    pull_pages-Served pages (suc fuel) page cursor rs t (Served.more n _ _ c rest k e s) h =
        page_step page cursor c (pull_pages qt env collection fuel (suc page)) t k
        ∙ rw e (
            pull_pages-Served n fuel (suc page) c.next_cursor rest _ s (omega arith)
            ∙ ap (λ (u : SyncTable). some (true, u))
                (sym (store_all-append (page_records qt env collection page c.records) rest t)))

    -- In a database that stores every record, and with a client whose requests a server answers,
    -- from the first page on and each page under the cursor of the one before, with a successful
    -- response and the JSON of a page of records whose versions are 32-bit: with as many rounds as
    -- there are pages, `pullCollection` returns true and has stored the records of all pages, one
    -- after another in the order of the pages.
    pub pull_collection-Served :
        (pages fuel : ℕ) (rs : List SyncRecord) (t : SyncTable)
        → Served server now_ms pages 0 "" rs
        → pages ≤ fuel
        → pull_collection qt env collection fuel t ≡ some (true, store_all rs t)
    unfolding pull_collection
    pull_collection-Served pages fuel rs t s h = pull_pages-Served pages fuel 0 "" rs t s h
