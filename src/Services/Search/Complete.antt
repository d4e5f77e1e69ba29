-- ===== src/Services/Search/Complete.antt =====
-- src/services/SearchService.cpp: what was indexed is found.
use vox_desktop.Base.{
  ◌≡◌, ◌∙◌, refl, sym, ap, append-nil, append_assoc, String, Bool, true, Bool-cases, inl, inr,
  Bytes, is_empty, List, [], ◌∷◌, ◌++◌, map, ◌==◌, ==-self, list_eq, nat_eq, arith,
}
use mathlib.Core.List.{Memᴰ}
use mathlib.Core.List.Memᴰ
use vox_desktop.Base.Int.{ℤ, pos, suc_int}
use vox_desktop.Qt.{Qt}
use vox_desktop.Qt.Text.{QtText}
use vox_desktop.Crypto.Sodium.{Sodium}
use vox_desktop.Storage.Table.{keep}
use vox_desktop.Storage.Search.{SearchRow, SearchTable, insert_token, find_messages_by_token}
use vox_desktop.Services.Search.{
  tokenize, token_digest, index_tokens, index_message, find_message_ids,
}

-- Every message that is found is found still when rows follow.
keep-append : (p : SearchRow → Bool) (t u : SearchTable) → keep p (t ++ u) ≡ keep p t ++ keep p u
unfolding keep
keep-append p [] u = refl
keep-append p (r ∷ t) u = elim (Bool-cases (p r)) [
  | inl taken ↦ rw taken (ap (λ (l : SearchTable). r ∷ l) (keep-append p t u))
  | inr left ↦ rw left (keep-append p t u)
]

map-append_ids :
    (t u : SearchTable)
    → map (λ (r : SearchRow). r.message_id) (t ++ u)
      ≡ map (λ (r : SearchRow). r.message_id) t ++ map (λ (r : SearchRow). r.message_id) u
map-append_ids [] u = refl
map-append_ids (r ∷ t) u = ap (λ (l : List String). r.message_id ∷ l) (map-append_ids t u)

found-append :
    (d : Bytes) (t u : SearchTable)
    → find_messages_by_token true d (t ++ u)
      ≡ find_messages_by_token true d t ++ find_messages_by_token true d u
unfolding find_messages_by_token
found-append d t u =
    ap (map (λ (r : SearchRow). r.message_id))
      (keep-append (λ (r : SearchRow). r.token_digest == d) t u)
    ∙ map-append_ids _ _

module _ (qt : Qt) (strings : QtText) (lib : Sodium) where
  abbrev pub indexed_row : Bytes → String → String → String → ℤ → SearchRow
  indexed_row key conversation_id message_id token position = record {
    conversation_id = conversation_id;
    message_id = message_id;
    token_digest = token_digest qt strings lib key token;
    position_hint = position;
  }

  -- One row to a token, numbered from a position on.
  indexed_rows : Bytes → String → String → List String → ℤ → SearchTable
  indexed_rows key conversation_id message_id [] position = []
  indexed_rows key conversation_id message_id (token ∷ tokens) position =
      indexed_row key conversation_id message_id token position
      ∷ indexed_rows key conversation_id message_id tokens (suc_int position)

  index_tokens-true :
      (key : Bytes) (runs : ℤ → Bool) (conversation_id message_id : String) (tokens : List String)
      (position : ℤ) (t : SearchTable)
      → (index_tokens qt strings lib key runs conversation_id message_id tokens position t).0 ≡ true
      → (index_tokens qt strings lib key runs conversation_id message_id tokens position t).1
        ≡ t ++ indexed_rows key conversation_id message_id tokens position
  unfolding index_tokens indexed_rows insert_token
  index_tokens-true key runs conversation_id message_id [] position t h = sym (append-nil t)
  index_tokens-true key runs conversation_id message_id (token ∷ tokens) position t h =
      let row = indexed_row key conversation_id message_id token position in
      elim (Bool-cases (is_empty (token_digest qt strings lib key token))) [
        | inl empty ↦ absurd (ground arith)
        | inr hashed ↦ elim (Bool-cases (runs position)) [
          | inr failed ↦ absurd (ground arith)
          | inl stored ↦
              let rest =
                index_tokens-true key runs conversation_id message_id tokens (suc_int position)
                  (t ++ row ∷ []) in
              let goes_on : (index_tokens qt strings lib key runs conversation_id message_id tokens
                    (suc_int position) (t ++ row ∷ [])).0
                  ≡ true =
                rw (hashed, stored) at h in
              rw (hashed, stored)
                (rest goes_on
                  ∙ append_assoc t (row ∷ [])
                      (indexed_rows key conversation_id message_id tokens (suc_int position)))
        ]
      ]

  indexed_rows-found :
      (key : Bytes) (conversation_id message_id token : String) (tokens : List String)
      (position : ℤ)
      → Memᴰ token tokens
      → Memᴰ message_id (
          find_messages_by_token true
            (token_digest qt strings lib key token)
            (indexed_rows key conversation_id message_id tokens position))
  unfolding indexed_rows find_messages_by_token keep
  indexed_rows-found key conversation_id message_id token [] position m = elim m [ ]
  indexed_rows-found key conversation_id message_id token (other ∷ tokens) position (Memᴰ.head e) =
      rw (e, ==-self (token_digest qt strings lib key other)) (Memᴰ.head refl)
  indexed_rows-found key conversation_id message_id token (other ∷ tokens) position (Memᴰ.tail m) =
      let later =
        indexed_rows-found key conversation_id message_id token tokens (suc_int position) m in
      elim (Bool-cases
        (token_digest qt strings lib key other == token_digest qt strings lib key token)) [
          | inl same ↦ rw same (Memᴰ.tail later)
          | inr apart ↦ rw apart later
        ]

  -- After `indexMessage` has returned true, a search whose first token is among the tokens of the
  -- message finds the message.
  pub find_message_ids-indexed :
      (key : Bytes) (runs : ℤ → Bool) (conversation_id message_id plaintext query token : String)
      (rest : List String) (t : SearchTable)
      → (index_message qt strings lib key runs conversation_id message_id plaintext t).0 ≡ true
      → tokenize qt strings lib query ≡ token ∷ rest
      → Memᴰ token (tokenize qt strings lib plaintext)
      → Memᴰ message_id (
          find_message_ids qt strings lib key true
            (index_message qt strings lib key runs conversation_id message_id plaintext t).1
            query)
  unfolding index_message find_message_ids
  find_message_ids-indexed key runs conversation_id message_id plaintext query token rest t h first
        m =
      let tokens = tokenize qt strings lib plaintext in
      let digest = token_digest qt strings lib key token in
      let added = indexed_rows key conversation_id message_id tokens (pos 0) in
      rw
        (
          first,
          index_tokens-true key runs conversation_id message_id tokens (pos 0) t h,
          found-append digest t added,
        )
        (Memᴰ.append_right (find_messages_by_token true digest t)
          (indexed_rows-found key conversation_id message_id token tokens (pos 0) m))
