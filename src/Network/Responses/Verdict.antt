-- ===== src/Network/Responses/Verdict.antt =====
-- src/network: when a client reports success, and which message it reports otherwise.
use vox_desktop.Base.{
  ℕ, ◌≤◌, ◌<◌, ◌≡◌, refl, inl, inr, String, true, false, not, ◌&&◌, Option, none, some,
  Option-cases, Bool-cases, text_is_empty, text_eq_iff, if◌then◌else◌, arith,
}
use vox_desktop.Base.Int.{ℤ, pos, negsuc, ltb_int}
use vox_desktop.Qt.{Qt}
use vox_desktop.Qt.Json.{Fields}
use vox_desktop.Network.{ApiError, ApiResult}
use vox_desktop.Network.JsonCodec.{parse_object}
use vox_desktop.Network.Parsing.{parse_api_error}
use vox_desktop.Network.Access.{NetworkResponse, response_ok}
use vox_desktop.Network.Responses.{
  typed_response, parse_typed_response, void_response, parse_void_response,
}

-- A status from 200 to 299 and no error of the network.
pub record IsOk (r : NetworkResponse) : Type 0 where
  pub status : ℕ
  pub is_status : r.status_code ≡ pos status
  pub lower : 200 ≤ status
  pub upper : status < 300
  pub no_error : r.error_message ≡ ""

status_in_range :
    (s : ℤ)
    → (not (ltb_int s (pos 200)) && ltb_int s (pos 300)) ≡ true
    → (n : ℕ) × (s ≡ pos n) × (200 ≤ n) × (n < 300)
status_in_range (pos n) h = (n, refl, ground arith, ground arith)
status_in_range (negsuc n) h = absurd (ground arith)

response_ok-IsOk : (r : NetworkResponse) → response_ok r ≡ true → IsOk r
unfolding response_ok
response_ok-IsOk r h =
    let (n, e, lower, upper) = status_in_range r.status_code (ground arith) in
    record {
      status = n;
      is_status = e;
      lower = lower;
      upper = upper;
      no_error = ground (arith, text_eq_iff r.error_message "");
    }

IsOk-response_ok : (r : NetworkResponse) → IsOk r → response_ok r ≡ true
unfolding response_ok
IsOk-response_ok r k = rw (k.is_status, k.no_error) (ground (arith, k.lower, k.upper))

module _ {ℓ} (qt : Qt) {A : Type ℓ} where
  -- A successful result: the response is one, its body is an object, and the object was read.
  pub record IsAnswer (parser : Fields → Option A) (r : NetworkResponse) (result : ApiResult A)
      : Type ℓ where
    pub response : IsOk r
    pub obj : Fields
    pub answer : A
    pub is_object : parse_object qt r.body ≡ some obj
    pub is_parsed : parser obj ≡ some answer
    pub is_payload : result.payload ≡ some answer

  -- The cases of a response, for a proof about any of the functions that look at it.
  pub data Verdict (parser : Fields → Option A) (r : NetworkResponse) : Type ℓ where
    garbled : parse_object qt r.body ≡ none → Verdict parser r
    refused :
        (obj : Fields)
        → parse_object qt r.body ≡ some obj
        → response_ok r ≡ false
        → Verdict parser r
    unread :
        (obj : Fields)
        → parse_object qt r.body ≡ some obj
        → response_ok r ≡ true
        → parser obj ≡ none
        → Verdict parser r
    accepted :
        (obj : Fields) (answer : A)
        → parse_object qt r.body ≡ some obj
        → response_ok r ≡ true
        → parser obj ≡ some answer
        → Verdict parser r

  verdict : (parser : Fields → Option A) (r : NetworkResponse) → Verdict parser r
  verdict parser r = elim (Option-cases (parse_object qt r.body)) [
    | inl e ↦ garbled e
    | inr (obj, e) ↦ elim (Bool-cases (response_ok r)) [
      | inr failed ↦ refused obj e failed
      | inl k ↦ elim (Option-cases (parser obj)) [
        | inl unparsed ↦ unread obj e k unparsed
        | inr (answer, parsed) ↦ accepted obj answer e k parsed
      ]
    ]
  ]

  typed_response-IsAnswer :
      (unexpected : String) (parser : Fields → Option A) (r : NetworkResponse)
      → (typed_response qt unexpected parser r).ok ≡ true
      → IsAnswer parser r (typed_response qt unexpected parser r)
  unfolding typed_response
  typed_response-IsAnswer unexpected parser r h = elim (verdict parser r) [
    | garbled e ↦ absurd (ground arith)
    | refused obj e failed ↦ absurd (ground arith)
    | unread obj e k unparsed ↦ absurd (ground arith)
    | accepted obj answer e k parsed ↦ record {
      response = response_ok-IsOk r k;
      obj = obj;
      answer = answer;
      is_object = e;
      is_parsed = parsed;
      is_payload = ground arith;
    }
  ]

  pub parse_typed_response-IsAnswer :
      (parser : Fields → Option A) (r : NetworkResponse)
      → (parse_typed_response qt parser r).ok ≡ true
      → IsAnswer parser r (parse_typed_response qt parser r)
  unfolding parse_typed_response
  parse_typed_response-IsAnswer parser r h = elim (verdict parser r) [
    | garbled e ↦ absurd (ground arith)
    | refused obj e failed ↦ absurd (ground arith)
    | unread obj e k unparsed ↦ absurd (ground arith)
    | accepted obj answer e k parsed ↦ record {
      response = response_ok-IsOk r k;
      obj = obj;
      answer = answer;
      is_object = e;
      is_parsed = parsed;
      is_payload = ground arith;
    }
  ]

  -- Where a response is not successful and its body is a JSON object with an error of the API, both
  -- ways of reading a typed response give the error's message and no payload.
  pub typed_response-refused :
      (unexpected : String) (parser : Fields → Option A) (r : NetworkResponse) (obj : Fields)
      (e : ApiError)
      → response_ok r ≡ false
      → parse_object qt r.body ≡ some obj
      → parse_api_error obj ≡ some e
      → ((typed_response qt unexpected parser r).error ≡ e.message)
        × ((typed_response qt unexpected parser r).payload ≡ none)
        × ((parse_typed_response qt parser r).error ≡ e.message)
        × ((parse_typed_response qt parser r).payload ≡ none)
  unfolding typed_response parse_typed_response
  typed_response-refused unexpected parser r obj e failed is_object is_error = ground arith

  -- A document that is read is the result of a successful response.
  pub typed_response-accepted :
      (unexpected : String) (parser : Fields → Option A) (r : NetworkResponse) (obj : Fields)
      (answer : A)
      → IsOk r
      → parse_object qt r.body ≡ some obj
      → parser obj ≡ some answer
      → typed_response qt unexpected parser r
        ≡ record { ok = true; status_code = r.status_code; error = ""; payload = some answer }
  unfolding typed_response
  typed_response-accepted unexpected parser r obj answer k is_object is_parsed =
      let is_ok = IsOk-response_ok r k in ground arith

  pub parse_typed_response-accepted :
      (parser : Fields → Option A) (r : NetworkResponse) (obj : Fields) (answer : A)
      → IsOk r
      → parse_object qt r.body ≡ some obj
      → parser obj ≡ some answer
      → parse_typed_response qt parser r
        ≡ record { ok = true; status_code = r.status_code; error = ""; payload = some answer }
  unfolding parse_typed_response
  parse_typed_response-accepted parser r obj answer k is_object is_parsed =
      let is_ok = IsOk-response_ok r k in ground arith

module _ (qt : Qt) where
  void_response-refused :
      (r : NetworkResponse) (obj : Fields) (e : ApiError)
      → response_ok r ≡ false
      → parse_object qt r.body ≡ some obj
      → parse_api_error obj ≡ some e
      → ((void_response qt r).error ≡ e.message)
        × ((parse_void_response qt r).error
            ≡ (if text_is_empty e.message then r.error_message else e.message))
  unfolding void_response parse_void_response
  void_response-refused r obj e failed is_object is_error = ground arith
