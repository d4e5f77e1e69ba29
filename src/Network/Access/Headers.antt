-- ===== src/Network/Access/Headers.antt =====
-- src/network/NetworkAccess.cpp: which headers a request carries.
use Prim.Native.String.{◌++◌ as append_text}
use vox_desktop.Base.{
  ◌≡◌, refl, String, string_eq, false, none, some, [], text_is_empty, Bool-cases, inl, inr,
  if◌then◌else◌,
}
use vox_desktop.Base.Dict.{lookup, insert}
use vox_desktop.Network.Access.{NetworkAccess, handler_headers, request_headers, set_bearer_token}

-- Of a request without headers of its own, and for a token that is not empty: the server is handed
-- the last token that was set, as a bearer token, by the network and by a handler in its place, and
-- the type of the content if there is one.
set_bearer_token-headers :
    (net : NetworkAccess) (token content_type : String)
    → text_is_empty token ≡ false
    → let net' = set_bearer_token net token in
      let typed = if text_is_empty content_type then none else some (append_text "" content_type) in
      (lookup (request_headers net' [] content_type) "Authorization"
        ≡ some (append_text "Bearer " token))
      × (lookup (handler_headers net' [] content_type) "Authorization"
          ≡ some (append_text "Bearer " token))
      × (lookup (request_headers net' [] content_type) "Content-Type" ≡ typed)
      × (lookup (handler_headers net' [] content_type) "Content-Type" ≡ typed)
unfolding set_bearer_token request_headers handler_headers insert lookup
set_bearer_token-headers net token content_type h = elim (Bool-cases (text_is_empty content_type)) [
  | inl e ↦ rw (h, e) (refl, refl, refl, refl)
  | inr e ↦ rw (h, e) (refl, refl, refl, refl)
]
