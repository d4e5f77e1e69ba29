-- ===== src/Network/Clients/Sync.antt =====
-- src/network/SyncApi.cpp.
pub mod Documents
use vox_desktop.Base.{String, Option, some, [], ◌∷◌, ◌>>=◌, text_is_empty, if◌then◌else◌}
use vox_desktop.Base.Int.{ℤ}
use vox_desktop.Qt.{Qt}
use vox_desktop.Qt.Json.{Fields, nil, text, number, object, insert}
use vox_desktop.Network.{
  VoidResult, ApiResult, SyncKeyBundleDto, SyncRecordDto, SyncChangesResponse,
}
use vox_desktop.Network.JsonCodec.{to_bytes}
use vox_desktop.Network.Printing.{sync_record_dto_to_json}
use vox_desktop.Network.Parsing.{
  parse_all, array_field, text_field, bool_field, parse_sync_record_dto, parse_sync_key_bundle_dto,
}
use vox_desktop.Network.Access.{NetworkAccess, Transport, Query, get, put_json, delete_request}
use vox_desktop.Network.Responses.{typed_response, void_response}
use vox_desktop.Network.ApiPaths.{
  join_path, sync_key_bundle_path, sync_changes_path, sync_records_prefix_path,
}
use vox_desktop.Network.Clients.Conversations.{number_text}

unfoldable pub key_bundle_body : SyncKeyBundleDto → Fields
key_bundle_body bundle =
    let body = insert nil "version" (number bundle.version) in
    let body = insert body "wrapped_sync_key" (text bundle.wrapped_sync_key) in
    let body = insert body "sync_wrap_salt" (text bundle.sync_wrap_salt) in
    insert body "sync_wrap_params" (object bundle.sync_wrap_params)

unfoldable pub parse_changes : Fields → Option SyncChangesResponse
parse_changes obj = do
  records ← parse_all parse_sync_record_dto (array_field obj "records")
  some (record {
    records = records;
    next_cursor = text_field obj "next_cursor";
    has_more = bool_field obj "has_more";
  })

abbrev pub record_path : String → String → String
record_path collection record_id =
    join_path (sync_records_prefix_path ∷ collection ∷ "/" ∷ record_id ∷ [])

module _ (qt : Qt) where
  unfoldable pub changes_query : String → String → ℤ → Query
  changes_query collection cursor limit =
      ("collection", collection)
      ∷ ("limit", number_text qt limit)
      ∷ (if text_is_empty cursor then [] else ("cursor", cursor) ∷ [])

  module _ (transport : Transport) (net : NetworkAccess) where
    unfoldable pub get_key_bundle : ApiResult SyncKeyBundleDto
    get_key_bundle =
        typed_response qt "Invalid sync key bundle payload" parse_sync_key_bundle_dto
          (get qt transport net sync_key_bundle_path [] [])

    unfoldable pub put_key_bundle : SyncKeyBundleDto → VoidResult
    put_key_bundle bundle = void_response qt (
        put_json qt transport net sync_key_bundle_path (to_bytes qt (key_bundle_body bundle)) [] [])

    unfoldable pub changes : String → String → ℤ → ApiResult SyncChangesResponse
    changes collection cursor limit =
        typed_response qt "Invalid sync record entry" parse_changes
          (get qt transport net sync_changes_path (changes_query collection cursor limit) [])

    unfoldable pub put_record : SyncRecordDto → VoidResult
    put_record dto = void_response qt (
        put_json qt transport net (record_path dto.collection dto.record_id)
          (to_bytes qt (sync_record_dto_to_json dto)) [] [])

    unfoldable pub delete_record : String → String → VoidResult
    delete_record collection record_id =
        void_response qt (delete_request qt transport net (record_path collection record_id) [] [])
