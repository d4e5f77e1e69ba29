-- ===== src/Network/Clients/Auth.antt =====
-- src/network/AuthApi.cpp.
use vox_desktop.Base.{String, true, false, none, some, [], if◌then◌else◌}
use vox_desktop.Base.Int.{ℤ, pos}
use vox_desktop.Qt.{Qt}
use vox_desktop.Qt.Json.{Json, Fields, nil, text, object, insert, value, is_double, to_int}
use vox_desktop.Network.{
  VoidResult, ApiResult, RegisterRequest, LoginRequest, AuthSessionResponse, RefreshRequest,
  RefreshResponse, MeResponse,
}
use vox_desktop.Network.JsonCodec.{parse_object, parse_error, to_bytes}
use vox_desktop.Network.Printing.{
  register_request_to_json, login_request_to_json, refresh_request_to_json,
}
use vox_desktop.Network.Parsing.{
  parse_auth_session_response, parse_refresh_response, parse_me_response,
}
use vox_desktop.Network.Access.{
  NetworkAccess, NetworkResponse, Transport, response_ok, get, post_json,
}
use vox_desktop.Network.Responses.{
  failed_result, error_message_of, parse_typed_response, parse_void_response,
}
use vox_desktop.Network.ApiPaths.{
  register_path, login_path, refresh_path, me_path, logout_path, change_password_path,
}

unfoldable pub change_password_body : String → String → String → String → Fields → Fields
change_password_body current_password_derived new_password_derived wrapped_sync_key sync_wrap_salt
      sync_wrap_params =
    let body = insert nil "current_password_derived_value" (text current_password_derived) in
    let body = insert body "new_password_derived_value" (text new_password_derived) in
    let body = insert body "wrapped_sync_key" (text wrapped_sync_key) in
    let body = insert body "sync_wrap_salt" (text sync_wrap_salt) in
    insert body "sync_wrap_params" (object sync_wrap_params)

abbrev pub sync_key_version_result : NetworkResponse → Json → ApiResult ℤ
sync_key_version_result response version =
    if is_double version
    then record {
      ok = true;
      status_code = response.status_code;
      error = "";
      payload = some (to_int version (pos 0));
    }
    else record {
      ok = false;
      status_code = response.status_code;
      error = "Missing sync_key_version";
      payload = none;
    }

module _ (qt : Qt) where
  -- What `changePassword` makes of the response.
  unfoldable pub change_password_response : NetworkResponse → ApiResult ℤ
  change_password_response response = elim (parse_object qt response.body) [
    | none ↦ failed_result qt response (parse_error qt response.body)
    | some obj ↦
        if response_ok response
        then sync_key_version_result response (value obj "sync_key_version")
        else failed_result qt response (error_message_of qt response obj)
  ]

  module _ (transport : Transport) (net : NetworkAccess) where
    unfoldable pub register_user : RegisterRequest → ApiResult AuthSessionResponse
    register_user request = parse_typed_response qt parse_auth_session_response (
        post_json qt transport net register_path (to_bytes qt (register_request_to_json request)) []
          [])

    unfoldable pub login : LoginRequest → ApiResult AuthSessionResponse
    login request =
        parse_typed_response qt parse_auth_session_response (
          post_json qt transport net login_path (to_bytes qt (login_request_to_json request)) [] [])

    unfoldable pub refresh : RefreshRequest → ApiResult RefreshResponse
    refresh request = parse_typed_response qt parse_refresh_response (
        post_json qt transport net refresh_path (to_bytes qt (refresh_request_to_json request)) []
          [])

    unfoldable pub me : ApiResult MeResponse
    me = parse_typed_response qt parse_me_response (get qt transport net me_path [] [])

    unfoldable pub logout : VoidResult
    logout = parse_void_response qt (post_json qt transport net logout_path (to_bytes qt nil) [] [])

    unfoldable pub change_password : String → String → String → String → Fields → ApiResult ℤ
    change_password current_password_derived new_password_derived wrapped_sync_key sync_wrap_salt
          sync_wrap_params =
        let body =
          change_password_body current_password_derived new_password_derived wrapped_sync_key
            sync_wrap_salt sync_wrap_params in
        change_password_response
          (post_json qt transport net change_password_path (to_bytes qt body) [] [])
