-- ===== src/Network/Responses.antt =====
-- src/network: what the clients make of a response. The sources write this out in each method.
pub mod Verdict
use vox_desktop.Base.{String, true, false, Option, none, some, text_is_empty, if◌then◌else◌}
use vox_desktop.Qt.{Qt}
use vox_desktop.Qt.Json.{Fields}
use vox_desktop.Network.{VoidResult, ApiResult}
use vox_desktop.Network.JsonCodec.{parse_object, parse_error}
use vox_desktop.Network.Parsing.{parse_api_error}
use vox_desktop.Network.Access.{NetworkResponse, response_ok}

module _ (qt : Qt) where
  -- The message of an error in a document, and the network's without one.
  abbrev pub error_message_of : NetworkResponse → Fields → String
  error_message_of response obj = elim (parse_api_error obj) [
    | none ↦ response.error_message
    | some api_error ↦ api_error.message
  ]

  module _ {ℓ} {A : Type ℓ} where
    abbrev pub failed_result : NetworkResponse → String → ApiResult A
    failed_result response message = record {
      ok = false;
      status_code = response.status_code;
      error = message;
      payload = none;
    }

    abbrev pub parsed_result : NetworkResponse → String → Option A → ApiResult A
    parsed_result response unexpected none = failed_result response unexpected
    parsed_result response unexpected (some data_read) = record {
      ok = true;
      status_code = response.status_code;
      error = "";
      payload = some data_read;
    }

    -- The clients of conversations, the directory, synchronisation and attachments, with the message
    -- for a document that does not parse.
    unfoldable pub typed_response : String → (Fields → Option A) → NetworkResponse → ApiResult A
    typed_response unexpected parser response = elim (parse_object qt response.body) [
      | none ↦ failed_result response (parse_error qt response.body)
      | some obj ↦
          if response_ok response
          then parsed_result response unexpected (parser obj)
          else failed_result response (error_message_of response obj)
    ]

    -- `AuthApi::parseTypedResponse`: without a document the network's message replaces the parser's.
    unfoldable pub parse_typed_response : (Fields → Option A) → NetworkResponse → ApiResult A
    parse_typed_response parser response = elim (parse_object qt response.body) [
      | none ↦ failed_result response (
          if text_is_empty response.error_message
          then parse_error qt response.body
          else response.error_message)
      | some obj ↦
          if response_ok response
          then parsed_result response "Unexpected response shape" (parser obj)
          else failed_result response (error_message_of response obj)
    ]

  -- What `result.error` is after the body of a failed response was looked at.
  abbrev pub body_error : NetworkResponse → String
  body_error response = elim (parse_object qt response.body) [
    | none ↦ parse_error qt response.body
    | some obj ↦ elim (parse_api_error obj) [ none ↦ "" | some api_error ↦ api_error.message ]
  ]

  -- `SyncApi` and `AttachmentsApi`.
  unfoldable pub void_response : NetworkResponse → VoidResult
  void_response response = record {
    ok = response_ok response;
    status_code = response.status_code;
    error = if response_ok response then "" else body_error response;
  }

  abbrev pub message_or_network : NetworkResponse → String
  message_or_network response =
      if text_is_empty (body_error response) then response.error_message else body_error response

  -- `AuthApi::parseVoidResponse` and `ConversationsApi::parseVoid`: the network's message in place of
  -- an empty one.
  unfoldable pub parse_void_response : NetworkResponse → VoidResult
  parse_void_response response = record {
    ok = response_ok response;
    status_code = response.status_code;
    error = if response_ok response then "" else message_or_network response;
  }
