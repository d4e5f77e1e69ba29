-- ===== src/Storage/Search.antt =====
-- src/storage/Repositories.cpp, `SqlSearchRepository`. SQL leaves the order of the ids that are found
-- open; here it is the order in which the tokens were stored.
use vox_desktop.Base.{
  Bool, false, true, String, Bytes, List, [], ◌∷◌, ◌++◌, ◌==◌, map, if◌then◌else◌, list_eq, nat_eq,
}
use vox_desktop.Base.Int.{ℤ}
use vox_desktop.Storage.Table.{keep}

pub record SearchRow : Type 0 where
  pub conversation_id : String
  pub message_id : String
  pub token_digest : Bytes
  pub position_hint : ℤ

abbrev pub SearchTable : Type 0
SearchTable = List SearchRow

unfoldable pub insert_token : Bool → String → String → Bytes → ℤ → SearchTable → Bool × SearchTable
insert_token runs conversation_id message_id token_digest position_hint t =
    let row : SearchRow = record {
      conversation_id = conversation_id;
      message_id = message_id;
      token_digest = token_digest;
      position_hint = position_hint;
    } in
    if runs then (true, t ++ row ∷ []) else (false, t)

unfoldable pub find_messages_by_token : Bool → Bytes → SearchTable → List String
find_messages_by_token runs token_digest t =
    if runs
    then map (λ (r : SearchRow). r.message_id)
        (keep (λ (r : SearchRow). r.token_digest == token_digest) t)
    else []
