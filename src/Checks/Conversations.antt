-- ===== src/Checks/Conversations.antt =====
-- The theorems on conversations, search, fingerprints and migrations at concrete inputs.
use Prim.Native.String.{String}
use mathlib.Core.List.{Memᴰ}
use vox_desktop.Base.{
  ◌+◌, ◌*◌, ◌≡◌, refl, true, false, string_eq, Bytes, codes, some, none, List, [], ◌∷◌, ◌++◌,
  length, arith, text_is_empty,
}
use vox_desktop.Base.Int.{pos}
use vox_desktop.Base.Dict.{lookup, insert}
use vox_desktop.Qt.Text.{QtText}
use vox_desktop.Network.{ApiResult, ConversationSummaryDto}
use vox_desktop.Storage.Conversations.{ConversationsTable}
use vox_desktop.Storage.Search.{insert_token}
use vox_desktop.Services.Conversation.{TitleApis, refresh_conversations}
use vox_desktop.Services.Conversation.Refresh.{listed_row, last_listed, refresh_conversations-last}
use vox_desktop.Services.Search.{tokenize, index_message, index_tokens, find_message_ids}
use vox_desktop.Services.Search.Complete.{find_message_ids-indexed}
use vox_desktop.Crypto.Helpers.{hmac_sha256, sha256}
use vox_desktop.Crypto.Fingerprint.{HexText, fingerprint}
use vox_desktop.Crypto.Fingerprint.Grouping.{
  HexLaws, HasNoColon, all_upper, fingerprint-same_digest,
}
use vox_desktop.Storage.Migrations.{
  DatabaseSchema, MigrationEnv, connected, current_version, exec, exec_all, transaction, rollback,
  commit, upgrade, run,
}
use vox_desktop.Storage.Migrations.Schema.{create_table, set_version}
use vox_desktop.Storage.Migrations.Atomic.{has_table, run_complete}
use vox_desktop.Checks.Library.{sodium, sodium_laws, qt}

-- Texts that need no trimming; a text is one word, and its last characters are all of it.
abbrev words : String → List String
words text = elim (text_is_empty text) [ true ↦ [] | false ↦ text ∷ [] ]

abbrev pub strings : QtText
strings = record {
  size = λ s. length (codes s);
  right = λ s n. s;
  trimmed = λ s. s;
  to_lower = λ s. s;
  split_spaces = words;
}

abbrev pub unknown {ℓ} : {A : Type ℓ} → ApiResult A
unknown = record { ok = false; status_code = pos 404; error = "not found"; payload = none }

abbrev group_dto : ConversationSummaryDto
group_dto = record {
  conversation_id = "c1";
  type = pos 1;
  created_by = "u1";
  created_by_username = "ann";
  created_at = pos 9;
  membership_version = pos 1;
  my_role = "member";
  title = "";
  channel_post_policy = "";
  peer_user_id = none;
}

-- A server that lists one conversation and knows nothing else.
abbrev one_group : TitleApis
one_group = record {
  list_conversations = record {
    ok = true;
    status_code = pos 200;
    error = "";
    payload = some (group_dto ∷ []);
  };
  conversation = λ id. unknown;
  members = λ id. unknown;
  user_by_id = λ id. unknown;
}

-- The conversation as it is stored before, muted and pinned.
abbrev pinned : ConversationsTable
pinned =
    ("c1", record (listed_row strings qt one_group group_dto) { mute_state = 1; pin_rank = pos 5 })
    ∷ []

refresh_conversations-last_example :
    let (done, t') = refresh_conversations strings qt one_group (λ d. true) pinned in
    (done ≡ true)
    × (lookup t' "c1" ≡ last_listed strings qt one_group "c1" (group_dto ∷ []) (lookup pinned "c1"))
refresh_conversations-last_example =
    refresh_conversations-last strings qt one_group (group_dto ∷ []) pinned "c1" refl refl

hello-indexed :
    (index_message qt strings sodium (codes "key") (λ position. true) "c1" "m1" "hello" []).0 ≡ true
unfolding index_message index_tokens insert_token tokenize hmac_sha256
hello-indexed = refl

hello-tokens : tokenize qt strings sodium "hello" ≡ "hello" ∷ []
unfolding tokenize
hello-tokens = refl

find_message_ids-indexed_example : Memᴰ "m1" (
    find_message_ids qt strings sodium
      (codes "key")
      true
      (index_message qt strings sodium (codes "key") (λ position. true) "c1" "m1" "hello" []).1
      "hello")
unfolding tokenize
find_message_ids-indexed_example =
    find_message_ids-indexed qt strings sodium (codes "key") (λ position. true) "c1" "m1" "hello"
      "hello" "hello" [] [] hello-indexed refl (Memᴰ.head refl)

-- Digits that say no more than the byte, in two codes above the colon's.
abbrev two_codes : Bytes → Bytes
two_codes [] = []
two_codes (n ∷ b) = (n + 59) ∷ 59 ∷ two_codes b

abbrev hex : HexText
hex = record { to_hex = two_codes; to_upper = λ c. c }

length-two_codes : (b : Bytes) → length (two_codes b) ≡ 2 * length b
length-two_codes [] = refl
length-two_codes (n ∷ b) = omega (arith, length-two_codes b)

two_codes-HasNoColon : (b : Bytes) → HasNoColon (all_upper (λ c. c) (two_codes b))
two_codes-HasNoColon [] = tt
two_codes-HasNoColon (n ∷ b) =
    ((λ e. absurd (omega (arith, e))), ((λ e. absurd (omega (arith, e))), two_codes-HasNoColon b))

two_codes_injective :
    (a b : Bytes) → all_upper (λ c. c) (two_codes a) ≡ all_upper (λ c. c) (two_codes b) → a ≡ b
two_codes_injective [] [] e = refl
two_codes_injective [] (n ∷ b) e = absurd (ground (arith, e))
two_codes_injective (m ∷ a) [] e = absurd (ground (arith, e))
two_codes_injective (m ∷ a) (n ∷ b) e = ground (arith, two_codes_injective a b)

hex_laws : HexLaws sodium sodium_laws hex
hex_laws = record {
  hex_size = length-two_codes;
  no_colon = two_codes-HasNoColon;
  readable = two_codes_injective;
}

-- Keys that differ in where the first one ends.
fingerprint-same_digest_example :
    (length (fingerprint sodium hex (codes "ab") (codes "c")) ≡ 79)
    × (sha256 sodium (codes "ab" ++ codes "c") ≡ sha256 sodium (codes "a" ++ codes "bc"))
unfolding fingerprint
fingerprint-same_digest_example =
    fingerprint-same_digest sodium sodium_laws hex (codes "ab") (codes "c") (codes "a") (codes "bc")
      hex_laws refl

abbrev new_database : DatabaseSchema
new_database = record { tables = []; version = none }

abbrev healthy : MigrationEnv
healthy = record { runs = λ statement. true; starts = true; rolls_back = true; commits = true }

migrated : (run healthy (connected new_database)).0 ≡ true
unfolding run upgrade transaction rollback commit exec exec_all lookup insert current_version
migrated = refl

run_complete_example :
    let c = (run healthy (connected new_database)).1 in
    (c.stored.version ≡ some 1) × (has_table "servers" c.stored ≡ true) × (c.pending ≡ none)
run_complete_example = run_complete healthy new_database "servers" _ refl migrated (Memᴰ.head refl)

-- A disk that fills up before the last statement.
abbrev full : MigrationEnv
full = record {
  runs = λ statement. elim statement [
    | create_table name columns ↦ true
    | set_version n ↦ false
    | _ ↦ true
  ];
  starts = true;
  rolls_back = true;
  commits = true;
}
