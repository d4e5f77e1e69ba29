-- ===== src/Network/Access.antt =====
-- src/network/NetworkAccess.cpp. `Transport` stands for QNetworkAccessManager: what a request gets as
-- its reply. A header map is a dictionary whose keys are compared as they are written.
pub mod Headers
use Prim.Native.Char.{code}
use Prim.Native.String.{[], ◌∷◌, ◌++◌ as append_text}
use vox_desktop.Base.{
  String, string_eq, nat_eq, ◌==◌, Bool, false, ◌&&◌, ◌||◌, not, Bytes, Option, none, some, List,
  [], ◌∷◌, text_is_empty, if◌then◌else◌,
}
use vox_desktop.Base.Int.{ℤ, pos, ltb_int, int_eq}
use vox_desktop.Base.Dict.{Dict, insert}
use vox_desktop.Qt.{Qt}

pub record NetworkResponse : Type 0 where
  pub status_code : ℤ
  pub body : Bytes
  pub error_message : String

abbrev pub http_status_ok_min : ℤ
http_status_ok_min = pos 200

abbrev pub http_status_ok_max_exclusive : ℤ
http_status_ok_max_exclusive = pos 300

unfoldable pub response_ok : NetworkResponse → Bool
response_ok r =
    not (ltb_int r.status_code http_status_ok_min)
    && ltb_int r.status_code http_status_ok_max_exclusive
    && text_is_empty r.error_message

abbrev pub HeaderMap : Type 0
HeaderMap = Dict String String

abbrev pub Query : Type 0
Query = List (String × String)

-- The method, the path with its query, the body and the headers.
abbrev pub Handler : Type 0
Handler = String → String → Bytes → HeaderMap → NetworkResponse

-- What is handed to QNetworkAccessManager, and what its reply says when it has finished.
pub record NetworkRequest : Type 0 where
  pub method : String
  pub url : String
  pub query : Query
  pub headers : HeaderMap
  pub body : Bytes

pub record Reply : Type 0 where
  pub status_code : ℤ
  pub body : Bytes
  pub failed : Bool
  pub error_string : String

abbrev pub Transport : Type 0
Transport = NetworkRequest → Reply

pub record NetworkAccess : Type 0 where
  pub base_url : String
  pub bearer_token : String
  pub custom_handler : Option Handler

unfoldable pub new_network_access : String → NetworkAccess
new_network_access base_url = record {
  base_url = base_url;
  bearer_token = "";
  custom_handler = none;
}

unfoldable pub set_bearer_token : NetworkAccess → String → NetworkAccess
set_bearer_token net token = record net { bearer_token = token }

unfoldable pub set_custom_handler : NetworkAccess → Handler → NetworkAccess
set_custom_handler net handler = record net { custom_handler = some handler }

abbrev pub starts_with_slash : String → Bool
starts_with_slash [] = false
starts_with_slash (c ∷ s) = code c == b'/'

unfoldable pub normalized_path : String → String
normalized_path path = if starts_with_slash path then path else append_text "/" path

abbrev pub with_query : Qt → String → Query → String
with_query qt path [] = path
with_query qt path (q ∷ query) = append_text path (append_text "?" (qt.query_text (q ∷ query)))

-- Sets a header when its text is not empty.
abbrev pub insert_header : String → String → String → HeaderMap → HeaderMap
insert_header name prefix text headers =
    if text_is_empty text then headers else insert headers name (append_text prefix text)

-- The headers that a handler sees: the token and the type of the content replace the caller's.
unfoldable pub handler_headers : NetworkAccess → HeaderMap → String → HeaderMap
handler_headers net headers content_type =
    insert_header "Content-Type" "" content_type
      (insert_header "Authorization" "Bearer " net.bearer_token headers)

-- The headers of a request: the caller's replace the token, the type of the content both.
abbrev pub set_raw_headers : HeaderMap → HeaderMap → HeaderMap
set_raw_headers [] sent = sent
set_raw_headers ((name, text) ∷ headers) sent = set_raw_headers headers (insert sent name text)

unfoldable pub request_headers : NetworkAccess → HeaderMap → String → HeaderMap
request_headers net headers content_type =
    insert_header "Content-Type" "" content_type
      (set_raw_headers headers (insert_header "Authorization" "Bearer " net.bearer_token []))

-- The response that a finished reply is read as.
unfoldable pub response_of : Reply → NetworkResponse
response_of reply = record {
  status_code = reply.status_code;
  body = reply.body;
  error_message = if reply.failed && reply.status_code == pos 0 then reply.error_string else "";
}

module _ (qt : Qt) (transport : Transport) (net : NetworkAccess) where
  -- The last part of `execute`. GET and DELETE send no body.
  unfoldable pub send_request :
      String → String → Bytes → Query → HeaderMap → String → NetworkResponse
  send_request method path body query headers content_type =
      let request : NetworkRequest = record {
        method = method;
        url = append_text net.base_url path;
        query = query;
        headers = request_headers net headers content_type;
        body = body;
      } in
      if method == "GET" || method == "DELETE"
      then response_of (transport (record request { body = [] }))
      else if method == "POST" || method == "PUT"
      then response_of (transport request)
      else record { status_code = pos 0; body = []; error_message = "Unsupported HTTP method" }

  unfoldable pub execute : String → String → Bytes → Query → HeaderMap → String → NetworkResponse
  execute method path body query headers content_type =
      let path = normalized_path path in
      elim net.custom_handler [
        | none ↦ send_request method path body query headers content_type
        | some handler ↦
            handler method (with_query qt path query) body
              (handler_headers net headers content_type)
      ]

  unfoldable pub get : String → Query → HeaderMap → NetworkResponse
  get path query headers = execute "GET" path [] query headers ""

  unfoldable pub post_json : String → Bytes → Query → HeaderMap → NetworkResponse
  post_json path json_body query headers =
      execute "POST" path json_body query headers "application/json"

  unfoldable pub put_json : String → Bytes → Query → HeaderMap → NetworkResponse
  put_json path json_body query headers =
      execute "PUT" path json_body query headers "application/json"

  unfoldable pub put_bytes : String → Bytes → Query → HeaderMap → NetworkResponse
  put_bytes path payload query headers =
      execute "PUT" path payload query headers "application/octet-stream"

  unfoldable pub post_bytes : String → Bytes → Query → HeaderMap → NetworkResponse
  post_bytes path payload query headers =
      execute "POST" path payload query headers "application/octet-stream"

  unfoldable pub delete_request : String → Query → HeaderMap → NetworkResponse
  delete_request path query headers = execute "DELETE" path [] query headers ""
