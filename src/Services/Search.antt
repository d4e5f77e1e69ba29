-- ===== src/Services/Search.antt =====
-- src/services/SearchService.cpp, over the table of tokens.
pub mod Complete
use vox_desktop.Base.{
  ℕ, zero, suc, String, Bool, true, false, not, ◌||◌, Bytes, is_empty, List, [], ◌∷◌, if◌then◌else◌,
}
use vox_desktop.Base.Int.{ℤ, pos, suc_int}
use vox_desktop.Qt.{Qt}
use vox_desktop.Qt.Text.{QtText}
use vox_desktop.Crypto.Sodium.{Sodium}
use vox_desktop.Crypto.Helpers.{hmac_sha256}
use vox_desktop.Storage.Search.{SearchTable, insert_token, find_messages_by_token}

module _ (qt : Qt) (strings : QtText) (lib : Sodium) where
  unfoldable pub tokenize : String → List String
  tokenize text = strings.split_spaces (strings.to_lower (strings.trimmed text))

  abbrev pub token_digest : Bytes → String → Bytes
  token_digest search_index_key token = hmac_sha256 lib search_index_key (qt.to_utf8 token)

  -- The loop of `indexMessage` from a position on; `runs` says of each whether the database stores
  -- its row.
  unfoldable pub index_tokens :
      Bytes → (ℤ → Bool) → String → String → List String → ℤ → SearchTable → Bool × SearchTable
  index_tokens key runs conversation_id message_id [] position t = (true, t)
  index_tokens key runs conversation_id message_id (token ∷ tokens) position t =
      let digest = token_digest key token in
      let (inserted, t') =
        insert_token (runs position) conversation_id message_id digest position t in
      let rest = index_tokens key runs conversation_id message_id tokens (suc_int position) t' in
      if is_empty digest then (false, t) else if not inserted then (false, t') else rest

  unfoldable pub index_message :
      Bytes → (ℤ → Bool) → String → String → String → SearchTable → Bool × SearchTable
  index_message key runs conversation_id message_id plaintext t =
      index_tokens key runs conversation_id message_id (tokenize plaintext) (pos 0) t

  abbrev pub find_first : Bytes → Bool → SearchTable → List String → List String
  find_first key runs t [] = []
  find_first key runs t (token ∷ tokens) = find_messages_by_token runs (token_digest key token) t

  unfoldable pub find_message_ids : Bytes → Bool → SearchTable → String → List String
  find_message_ids key runs t query = find_first key runs t (tokenize query)
