-- ===== src/Network/Clients/Sync/Documents.antt =====
-- src/network/SyncApi.cpp: what the client makes of the documents of a server that prints records as
-- the client does.
use vox_desktop.Base.{◌≡◌, refl, String, true, some, []}
use vox_desktop.Base.Int.{ℤ, IsInt}
use vox_desktop.Qt.{Qt, QtLaws}
use vox_desktop.Qt.Json.{Fields, nil, text, bool, array, object, insert, value}
use vox_desktop.Network.{SyncRecordDto, SyncChangesResponse}
use vox_desktop.Network.JsonCodec.{parse_object, to_bytes}
use vox_desktop.Network.Printing.{sync_record_dto_to_json}
use vox_desktop.Network.Parsing.{parse_sync_record_dto}
use vox_desktop.Network.Parsing.RoundTrip.{
  Each, object_items, parse_all-object_items, parse_sync_record_dto-to_json,
}
use vox_desktop.Network.Access.{NetworkResponse, NetworkAccess, Transport, get}
use vox_desktop.Network.Responses.Verdict.{IsOk, typed_response-accepted}
use vox_desktop.Network.ApiPaths.{sync_changes_path}
use vox_desktop.Network.Clients.Sync.{parse_changes, changes_query, changes}

-- The server's document for a page of changes.
unfoldable pub changes_document : SyncChangesResponse → Fields
changes_document c =
    insert
      (insert (insert nil "records" (array (object_items sync_record_dto_to_json c.records)))
        "next_cursor" (text c.next_cursor))
      "has_more" (bool c.has_more)

abbrev pub HasIntVersion : SyncRecordDto → Type 0
HasIntVersion dto = IsInt dto.version

parse_changes-document :
    (c : SyncChangesResponse)
    → Each HasIntVersion c.records
    → parse_changes (changes_document c) ≡ some c
unfolding parse_changes changes_document insert value
parse_changes-document c h =
    rw
      (parse_all-object_items HasIntVersion sync_record_dto_to_json parse_sync_record_dto
        parse_sync_record_dto-to_json c.records h)
      refl

pub parse_object-to_bytes :
    (qt : Qt) → QtLaws qt → (fs : Fields) → parse_object qt (to_bytes qt fs) ≡ some fs
unfolding parse_object to_bytes
parse_object-to_bytes qt laws fs = rw (laws.json_round_trip (object fs) tt) refl

module _ (qt : Qt) (transport : Transport) (net : NetworkAccess) where
  abbrev pub changes_response : String → String → ℤ → NetworkResponse
  changes_response collection cursor limit =
      get qt transport net sync_changes_path (changes_query qt collection cursor limit) []

  pub changes-answered :
      QtLaws qt
      → (collection cursor : String) (limit : ℤ) (c : SyncChangesResponse)
      → IsOk (changes_response collection cursor limit)
      → (changes_response collection cursor limit).body ≡ to_bytes qt (changes_document c)
      → Each HasIntVersion c.records
      → changes qt transport net collection cursor limit ≡ record {
        ok = true;
        status_code = (changes_response collection cursor limit).status_code;
        error = "";
        payload = some c;
      }
  unfolding changes
  changes-answered laws collection cursor limit c k body h =
      typed_response-accepted qt "Invalid sync record entry" parse_changes
        (changes_response collection cursor limit) (changes_document c) c k
        (rw body (parse_object-to_bytes qt laws (changes_document c))) (parse_changes-document c h)
