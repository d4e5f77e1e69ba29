-- ===== src/Services/Auth/Accepted.antt =====
-- src/services/AuthService.cpp: a sign-in that returns true was accepted by the server.
use vox_desktop.Base.{
  subst, ◌≡◌, ◌∙◌, refl, Option, none, sym, ap, String, string_eq, Bool, true, ◌||◌, Bool-cases,
  Option-cases, inl, inr, [], some, Bytes, text_is_empty, arith,
}
use vox_desktop.Qt.{Qt}
use vox_desktop.Crypto.Sodium.{Sodium}
use vox_desktop.Crypto.Vault.{store_secret}
use vox_desktop.Qt.Json.{Fields, text, insert, value}
use vox_desktop.Crypto.Identity.{IdentityKeys, ensure_identity_keys}
use vox_desktop.Crypto.Prekeys.{SignedPrekey}
use vox_desktop.Network.{ApiResult, AuthSessionResponse, LoginRequest}
use vox_desktop.Network.Access.{NetworkAccess, NetworkResponse, set_bearer_token, post_json}
use vox_desktop.Network.JsonCodec.{to_bytes}
use vox_desktop.Network.Printing.{login_request_to_json}
use vox_desktop.Network.Responses.{parse_typed_response}
use vox_desktop.Network.Parsing.{parse_auth_session_response}
use vox_desktop.Network.Responses.Verdict.{IsAnswer, parse_typed_response-IsAnswer}
use vox_desktop.Network.Clients.Auth
use vox_desktop.Services.Auth.{
  AuthService, SessionEnv, session_context, persist_session, finish, refresh_token_name,
}
use vox_desktop.Services.Auth.SignIn.{KeysEnv, session_keys, login_request, login, sha256_hex_lower}

module _ (qt : Qt) (lib : Sodium) where
  -- A session that the server's answer began.
  pub record IsBegun (username device_id : String) (answer : ApiResult AuthSessionResponse)
      (s' : AuthService) : Type 0 where
    pub response : AuthSessionResponse
    pub accepted : answer.ok ≡ true
    pub payload : answer.payload ≡ some response
    pub in_context :
        s'.context
        ≡ some (record {
          user_id = response.user_id;
          username = username;
          device_id = device_id;
          access_token = response.access_token;
          refresh_token = response.refresh_token;
        })
    pub in_network : s'.network.bearer_token ≡ response.access_token

  persist_session-begun :
      (env : SessionEnv) (username : String) (response : AuthSessionResponse) (s : AuthService)
      → let s' = (persist_session qt lib env username response s).1 in
        (s'.context ≡ some (session_context s username response))
        × (s'.network.bearer_token ≡ response.access_token)
  unfolding persist_session set_bearer_token
  persist_session-begun env username response s =
      elim (Bool-cases
        (store_secret qt lib env.draw env.disk s.vault (refresh_token_name response.user_id)
          (qt.to_utf8 response.refresh_token)).0) [
            | inl stored ↦ rw stored (refl, refl)
            | inr lost ↦ rw lost (refl, refl)
          ]

  finish-IsBegun :
      (env : SessionEnv) (username : String) (answer : ApiResult AuthSessionResponse)
      (s : AuthService)
      → (finish qt lib env username answer s).0 ≡ true
      → IsBegun username s.device_id answer (finish qt lib env username answer s).1
  finish-IsBegun env username answer s h = elim (Option-cases answer.payload) [
    | inl nothing ↦ absurd (ground arith)
    | inr (response, is) ↦ elim (Bool-cases answer.ok) [
      | inr refused ↦ absurd (ground arith)
      | inl ok ↦
          let begun = persist_session-begun env username response s in
          let same : finish qt lib env username answer s
              ≡ persist_session qt lib env username response s =
            ground arith in
          record {
            response = response;
            accepted = ok;
            payload = is;
            in_context = rw same begun.0;
            in_network = rw same begun.1;
          }
    ]
  ]

-- A document with the fields of a login.
pub record IsLogin (username derived device_id : String) (document : Fields) : Type 0 where
  pub has_username : value document "username" ≡ text username
  pub has_password : value document "password_derived_value" ≡ text derived
  pub has_device : value document "device_id" ≡ text device_id
  pub has_label : value document "device_label" ≡ text "Vox Desktop"

login_request_to_json-IsLogin :
    (request : LoginRequest)
    → request.device_label ≡ "Vox Desktop"
    → IsLogin request.username request.password_derived_value request.device_id
        (login_request_to_json request)
unfolding login_request_to_json insert value
login_request_to_json-IsLogin request label =
    elim (Bool-cases (text_is_empty request.identity_key_public)) [
      | inl without_keys ↦
          rw (label, without_keys)
            (record {
              has_username = refl;
              has_password = refl;
              has_device = refl;
              has_label = refl;
            })
      | inr with_keys ↦
          rw (label, with_keys)
            (record {
              has_username = refl;
              has_password = refl;
              has_device = refl;
              has_label = refl;
            })
    ]

module _ (qt : Qt) (lib : Sodium) (hash_hex : Bytes → String) where
  -- The server's response to a document that is posted to the path of the login.
  abbrev pub posted_login : SessionEnv → AuthService → Fields → NetworkResponse
  posted_login env s document =
      post_json qt env.transport s.network "/v1/login" (to_bytes qt document) [] []

  login_request-IsLogin :
      (s : AuthService) (username password : String) (identity : Option IdentityKeys)
      (signed_prekey : Option SignedPrekey)
      → IsLogin username (hash_hex (qt.to_utf8 password)) s.device_id (
          login_request_to_json (
            login_request qt lib s username
              (sha256_hex_lower qt lib hash_hex password)
              identity
              signed_prekey))
  login_request-IsLogin s username password (some identity) (some signed_prekey) =
      login_request_to_json-IsLogin _ refl
  login_request-IsLogin s username password (some identity) none =
      login_request_to_json-IsLogin _ refl
  login_request-IsLogin s username password none signed_prekey =
      login_request_to_json-IsLogin _ refl

  -- The making of the keys changes neither the device nor the network.
  session_keys-same :
      (keys : KeysEnv) (s : AuthService)
      → let s' = (session_keys qt lib keys s).3 in
        (s'.device_id ≡ s.device_id) × (s'.network ≡ s.network)
  unfolding session_keys
  session_keys-same keys s =
      elim (Bool-cases
        (ensure_identity_keys qt lib keys.identity_draws keys.identity_disks keys.sign_pair
          keys.dh_pair s.vault).0) [
            | inl made ↦ rw made (refl, refl)
            | inr failed ↦ rw failed (refl, refl)
          ]

  -- A login that the server accepted.
  pub record IsAccepted (env : SessionEnv) (username password : String) (s s' : AuthService)
      : Type 0 where
    pub document : Fields
    pub answer : ApiResult AuthSessionResponse
    pub is_login : IsLogin username (hash_hex (qt.to_utf8 password)) s.device_id document
    pub is_answer : IsAnswer qt parse_auth_session_response (posted_login env s document) answer
    pub begun : IsBegun qt lib username s.device_id answer s'

  -- Where `login` returns true, a document with the name, the hash of the password, the device and
  -- its label was posted to the path of the login, the server's response to it was successful, and
  -- its body a JSON object with a session. The context then has the session's user and tokens, the
  -- name and the device, and the network the session's access token.
  pub login-true :
      (env : SessionEnv) (keys : KeysEnv) (username password : String) (s : AuthService)
      → (login qt lib hash_hex env keys username password s).0 ≡ true
      → IsAccepted env username password s (login qt lib hash_hex env keys username password s).1
  unfolding login Auth.login
  login-true env keys username password s h =
      elim (Bool-cases (text_is_empty username || text_is_empty password)) [
        | inl missing ↦ absurd (ground arith)
        | inr given ↦
            let (ensured, identity, signed_prekey, s') = session_keys qt lib keys s in
            let document = login_request_to_json (
              login_request qt lib s' username (sha256_hex_lower qt lib hash_hex password) identity
                signed_prekey) in
            let asked = posted_login env s' document in
            let (same_device, same_network) = session_keys-same keys s in
            let answer = parse_typed_response qt parse_auth_session_response asked in
            let same : login qt lib hash_hex env keys username password s
                ≡ finish qt lib env username answer s' =
              rw given refl in
            let finished : (finish qt lib env username answer s').0 ≡ true =
              sym (ap (λ (p : Bool × AuthService). p.0) same) ∙ h in
            let begun = finish-IsBegun qt lib env username answer s' finished in
            record {
              document = document;
              answer = answer;
              is_login =
                  subst
                    (λ (d : String). IsLogin username (hash_hex (qt.to_utf8 password)) d document)
                    same_device (login_request-IsLogin s' username password identity signed_prekey);
              is_answer =
                  subst
                    (λ (n : NetworkAccess).
                      IsAnswer qt parse_auth_session_response
                        (post_json qt env.transport n "/v1/login" (to_bytes qt document) [] [])
                        answer)
                    same_network
                    (parse_typed_response-IsAnswer qt parse_auth_session_response asked
                      begun.accepted);
              begun =
                  subst
                    (λ (d : String).
                      IsBegun qt lib username d answer
                        (login qt lib hash_hex env keys username password s).1)
                    same_device (rw same begun);
            }
      ]
