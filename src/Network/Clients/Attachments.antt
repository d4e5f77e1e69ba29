-- ===== src/Network/Clients/Attachments.antt =====
-- src/network/AttachmentsApi.cpp, as the interface `AttachmentsApi` that its service takes.
use vox_desktop.Base.{ℕ, String, Bytes, true, some, [], ◌∷◌, if◌then◌else◌}
use vox_desktop.Base.Int.{pos}
use vox_desktop.Qt.{Qt}
use vox_desktop.Qt.Json.{Fields, nil, text, insert}
use vox_desktop.Network.{
  VoidResult, ApiResult, AttachmentUploadInitRequest, AttachmentUploadInitResponse, AttachmentsApi,
}
use vox_desktop.Network.JsonCodec.{to_bytes}
use vox_desktop.Network.Printing.{attachment_upload_init_request_to_json}
use vox_desktop.Network.Parsing.{parse_attachment_upload_init_response}
use vox_desktop.Network.Access.{
  NetworkAccess, NetworkResponse, Transport, Query, response_ok, get, post_json, put_bytes,
}
use vox_desktop.Network.Responses.{failed_result, message_or_network, typed_response, void_response}
use vox_desktop.Network.ApiPaths.{join_path, attachments_upload_init_path, attachments_prefix_path}
use vox_desktop.Network.Clients.Conversations.{number_text}

unfoldable pub finalize_body : String → Fields
finalize_body ciphertext_hash = insert nil "ciphertext_hash" (text ciphertext_hash)

module _ (qt : Qt) where
  unfoldable pub chunk_query : ℕ → Query
  chunk_query offset = ("offset", number_text qt (pos offset)) ∷ []

  -- What `download` makes of the response: the body as it is.
  unfoldable pub download_response : NetworkResponse → ApiResult Bytes
  download_response response =
      if response_ok response
      then record {
        ok = true;
        status_code = response.status_code;
        error = "";
        payload = some response.body;
      }
      else failed_result qt response (message_or_network qt response)

  module _ (transport : Transport) (net : NetworkAccess) where
    unfoldable pub upload_init :
        AttachmentUploadInitRequest → ApiResult AttachmentUploadInitResponse
    upload_init request =
        typed_response qt "Invalid attachment upload-init response"
          parse_attachment_upload_init_response
          (post_json qt transport net attachments_upload_init_path
            (to_bytes qt (attachment_upload_init_request_to_json request)) [] [])

    unfoldable pub upload_chunk : String → ℕ → Bytes → VoidResult
    upload_chunk attachment_id offset ciphertext_chunk = void_response qt (
        put_bytes qt transport net
          (join_path (attachments_prefix_path ∷ attachment_id ∷ "/chunk" ∷ [])) ciphertext_chunk
          (chunk_query offset) [])

    unfoldable pub finalize : String → String → VoidResult
    finalize attachment_id ciphertext_hash = void_response qt (
        post_json qt transport net
          (join_path (attachments_prefix_path ∷ attachment_id ∷ "/finalize" ∷ []))
          (to_bytes qt (finalize_body ciphertext_hash)) [] [])

    unfoldable pub download : String → ApiResult Bytes
    download attachment_id =
        download_response
          (get qt transport net (join_path (attachments_prefix_path ∷ attachment_id ∷ [])) [] [])

    unfoldable pub attachments_api : AttachmentsApi
    attachments_api = record {
      upload_init = upload_init;
      upload_chunk = upload_chunk;
      finalize = finalize;
      download = download;
    }
