-- ===== src/Network/Clients/Conversations.antt =====
-- src/network/ConversationsApi.cpp.
use vox_desktop.Base.{String, Option, none, some, List, [], ◌∷◌, text_is_empty, if◌then◌else◌}
use vox_desktop.Base.Int.{ℤ}
use vox_desktop.Qt.{Qt}
use vox_desktop.Qt.Json.{Fields, nil, text, insert}
use vox_desktop.Network.{
  VoidResult, ApiResult, ConversationSummaryDto, ConversationMembersResponseDto,
  ConversationCreateRequest, ConversationCreateResponse, SendEnvelopeRequest, SendEnvelopeResponse,
  EnvelopeBatchResponse,
}
use vox_desktop.Network.JsonCodec.{to_bytes}
use vox_desktop.Network.Printing.{
  conversation_create_request_to_json, send_envelope_request_to_json,
}
use vox_desktop.Network.Parsing.{
  parse_all, array_field, parse_conversation_summary_dto, parse_conversation_members_response_dto,
  parse_conversation_create_response, parse_send_envelope_response, parse_envelope_batch_response,
}
use vox_desktop.Network.Access.{NetworkAccess, Transport, Query, get, post_json, delete_request}
use vox_desktop.Network.Responses.{typed_response, parse_void_response}
use vox_desktop.Network.ApiPaths.{
  join_path, conversations_path, messages_send_path, messages_ack_path, sync_pending_path,
}

unfoldable pub parse_conversations : Fields → Option (List ConversationSummaryDto)
parse_conversations obj = parse_all parse_conversation_summary_dto (array_field obj "conversations")

unfoldable pub member_body : String → String → Fields
member_body user_id role = insert (insert nil "user_id" (text user_id)) "role" (text role)

unfoldable pub ack_body : String → String → Fields
ack_body device_id envelope_id =
    insert (insert nil "device_id" (text device_id)) "envelope_id" (text envelope_id)

module _ (qt : Qt) where
  -- QString::number
  abbrev pub number_text : ℤ → String
  number_text n = qt.from_utf8 (qt.number n)

  unfoldable pub pending_query : ℤ → String → Query
  pending_query limit cursor =
      ("limit", number_text limit) ∷ (if text_is_empty cursor then [] else ("cursor", cursor) ∷ [])

  abbrev pub since_query : Option ℤ → Query
  since_query none = []
  since_query (some since) = ("since", number_text since) ∷ []

  unfoldable pub envelopes_query : ℤ → String → Option ℤ → Query
  envelopes_query limit cursor since =
      ("limit", number_text limit)
      ∷ (if text_is_empty cursor then since_query since else ("cursor", cursor) ∷ [])

  module _ (transport : Transport) (net : NetworkAccess) where
    unfoldable pub list_conversations : ApiResult (List ConversationSummaryDto)
    list_conversations =
        typed_response qt "Invalid conversation entry" parse_conversations
          (get qt transport net conversations_path [] [])

    unfoldable pub conversation : String → ApiResult ConversationSummaryDto
    conversation conversation_id =
        typed_response qt "Invalid conversation payload" parse_conversation_summary_dto
          (get qt transport net (join_path (conversations_path ∷ "/" ∷ conversation_id ∷ [])) [] [])

    unfoldable pub members : String → ApiResult ConversationMembersResponseDto
    members conversation_id =
        typed_response qt "Invalid members payload" parse_conversation_members_response_dto (
          get qt transport net
            (join_path (conversations_path ∷ "/" ∷ conversation_id ∷ "/members" ∷ [])) [] [])

    unfoldable pub create_conversation :
        ConversationCreateRequest → ApiResult ConversationCreateResponse
    create_conversation request =
        typed_response qt "Invalid create conversation payload" parse_conversation_create_response (
          post_json qt transport net conversations_path
            (to_bytes qt (conversation_create_request_to_json request)) [] [])

    unfoldable pub add_member : String → String → String → VoidResult
    add_member conversation_id user_id role = parse_void_response qt (
        post_json qt transport net
          (join_path (conversations_path ∷ "/" ∷ conversation_id ∷ "/members" ∷ []))
          (to_bytes qt (member_body user_id role)) [] [])

    unfoldable pub remove_member : String → String → VoidResult
    remove_member conversation_id user_id = parse_void_response qt (
        delete_request qt transport net
          (join_path (conversations_path ∷ "/" ∷ conversation_id ∷ "/members/" ∷ user_id ∷ [])) []
          [])

    unfoldable pub subscribe : String → VoidResult
    subscribe conversation_id = parse_void_response qt (
        post_json qt transport net
          (join_path (conversations_path ∷ "/" ∷ conversation_id ∷ "/subscribe" ∷ []))
          (to_bytes qt nil) [] [])

    unfoldable pub unsubscribe : String → VoidResult
    unsubscribe conversation_id = parse_void_response qt (
        post_json qt transport net
          (join_path (conversations_path ∷ "/" ∷ conversation_id ∷ "/unsubscribe" ∷ []))
          (to_bytes qt nil) [] [])

    unfoldable pub send_envelope : SendEnvelopeRequest → ApiResult SendEnvelopeResponse
    send_envelope request = typed_response qt "Invalid send response" parse_send_envelope_response (
        post_json qt transport net messages_send_path
          (to_bytes qt (send_envelope_request_to_json request)) [] [])

    unfoldable pub ack_envelope : String → String → VoidResult
    ack_envelope device_id envelope_id = parse_void_response qt (
        post_json qt transport net messages_ack_path (to_bytes qt (ack_body device_id envelope_id))
          [] [])

    unfoldable pub pending_envelopes : ℤ → String → ApiResult EnvelopeBatchResponse
    pending_envelopes limit cursor =
        typed_response qt "Invalid pending envelopes response" parse_envelope_batch_response
          (get qt transport net sync_pending_path (pending_query limit cursor) [])

    unfoldable pub conversation_envelopes :
        String → ℤ → String → Option ℤ → ApiResult EnvelopeBatchResponse
    conversation_envelopes conversation_id limit cursor since =
        typed_response qt "Invalid conversation envelopes response" parse_envelope_batch_response (
          get qt transport net
            (join_path (conversations_path ∷ "/" ∷ conversation_id ∷ "/envelopes" ∷ []))
            (envelopes_query limit cursor since) [])
