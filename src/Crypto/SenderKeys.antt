-- ===== src/Crypto/SenderKeys.antt =====
-- src/crypto/SenderKeyManager.cpp: the sender keys of each conversation by epoch.
pub mod Epochs
pub mod Freshness
use vox_desktop.Base.{
  ℕ, String, Bool, true, false, not, ◌||◌, Option, none, some, Bytes, length, [], ltb, nat_beq,
  string_eq, value_or, if◌then◌else◌,
}
use vox_desktop.Base.Int.{ℤ, pos, ltb_int, max_int, suc_int, int_eq}
use vox_desktop.Base.Dict.{Dict, lookup, insert}
use vox_desktop.Crypto.Sodium.{Sodium, Draw, chacha20_key_bytes}
use vox_desktop.Crypto.Helpers.{random_bytes}

pub record EpochState : Type 0 where
  pub current_epoch : ℤ
  pub keys : Dict ℤ Bytes

-- A default-constructed `EpochState`, which `operator[]` inserts for a conversation that is new.
abbrev pub no_epochs : EpochState
no_epochs = record { current_epoch = pos 0; keys = [] }

abbrev pub SenderKeyManager : Type 0
SenderKeyManager = Dict String EpochState

unfoldable pub state_of : SenderKeyManager → String → EpochState
state_of m conversation_id = value_or (lookup m conversation_id) no_epochs

unfoldable pub current_epoch : SenderKeyManager → String → ℤ
current_epoch m conversation_id = (state_of m conversation_id).current_epoch

unfoldable pub key_for_epoch : SenderKeyManager → String → ℤ → Option Bytes
key_for_epoch m conversation_id epoch = elim (lookup m conversation_id) [
  | none ↦ none
  | some state ↦ lookup state.keys epoch
]

unfoldable pub rotate_epoch : Sodium → Draw → SenderKeyManager → String → Bytes × SenderKeyManager
rotate_epoch lib draw m conversation_id =
    let state = state_of m conversation_id in
    let epoch = suc_int state.current_epoch in
    let new_key = random_bytes lib draw (pos chacha20_key_bytes) in
    let rotated : EpochState = record {
      current_epoch = epoch;
      keys = insert state.keys epoch new_key;
    } in
    (new_key, insert m conversation_id rotated)

unfoldable pub import_epoch_key : SenderKeyManager → String → ℤ → Bytes → Bool × SenderKeyManager
import_epoch_key m conversation_id epoch key =
    let state = state_of m conversation_id in
    let imported : EpochState = record {
      current_epoch = max_int state.current_epoch epoch;
      keys = insert state.keys epoch key;
    } in
    if not (ltb_int (pos 0) epoch) || not (nat_beq (length key) chacha20_key_bytes)
    then (false, m)
    else (true, insert m conversation_id imported)
