-- ===== src/Crypto/Prekeys.antt =====
-- src/crypto/PrekeyManager.cpp: the signed prekey and the queue of one-time prekeys, as secrets of
-- the vault.
pub mod Queue
use vox_desktop.Base.{
  ℕ, zero, suc, String, Bool, true, false, not, ◌||◌, Bytes, length, is_empty, Option, none, some,
  List, [], ◌∷◌, ◌++◌, value_or, leb, if◌then◌else◌,
}
use vox_desktop.Base.Int.{ℤ, pos, negsuc, suc_int}
use vox_desktop.Qt.{Qt}
use vox_desktop.Qt.Json
use vox_desktop.Qt.Json.{
  Json, Items, Fields, end, item, nil, text, array, object, value, to_text, to_array, to_object,
}
use vox_desktop.Crypto.Sodium.{Sodium, Draw}
use vox_desktop.Crypto.Helpers.{ed25519_sign}
use vox_desktop.Crypto.Vault.{
  VaultService, Disk, to_b64, from_b64, object_of, load_secret, store_secret,
}
use vox_desktop.Crypto.Identity.{KeyPair, IdentityKeys, identity_keys, store_secrets}

pub record SignedPrekey : Type 0 where
  pub key_id : ℤ
  pub public_key : Bytes
  pub private_key : Bytes
  pub signature : Bytes

pub record PrekeyManager : Type 0 where
  pub next_signed_prekey_id : ℤ

module _ (qt : Qt) (lib : Sodium) where
  abbrev pub prekey_secrets : SignedPrekey → List (String × Bytes)
  prekey_secrets p =
      ("signed_prekey_id", qt.number p.key_id)
      ∷ ("signed_prekey_pub", p.public_key)
      ∷ ("signed_prekey_priv", p.private_key)
      ∷ ("signed_prekey_sig", p.signature)
      ∷ []

  -- The end of `rotateSignedPrekey`, over the identity and the new pair.
  unfoldable pub rotate_pair :
      (ℕ → Draw)
      → (ℕ → Disk)
      → IdentityKeys
      → KeyPair
      → PrekeyManager
      → VaultService
      → Option SignedPrekey × PrekeyManager × VaultService
  rotate_pair draws disks identity pair m v =
      let signature = ed25519_sign lib identity.signing_private pair.public in
      let signed_prekey : SignedPrekey = record {
        key_id = m.next_signed_prekey_id;
        public_key = pair.public;
        private_key = pair.private;
        signature = signature;
      } in
      let m' : PrekeyManager = record { next_signed_prekey_id = suc_int m.next_signed_prekey_id } in
      let (stored, v') = store_secrets qt lib draws disks (prekey_secrets signed_prekey) v in
      if is_empty signature
      then (none, m, v)
      else if not stored
      then (none, m', v')
      else (some signed_prekey, m', v')

  unfoldable pub rotate_signed_prekey :
      (ℕ → Draw)
      → (ℕ → Disk)
      → Option KeyPair
      → PrekeyManager
      → VaultService
      → Option SignedPrekey × PrekeyManager × VaultService
  rotate_signed_prekey draws disks pair m v =
      if not v.unlocked || not lib.init_ok then (none, m, v) else elim (identity_keys v) [
        | none ↦ (none, m, v)
        | some identity ↦ elim pair [
          | none ↦ (none, m, v)
          | some pair ↦ rotate_pair draws disks identity pair m v
        ]
      ]

  unfoldable pub queue_items : List Bytes → Items
  queue_items [] = end
  queue_items (key ∷ keys) = item (text (to_b64 qt lib key)) (queue_items keys)

  unfoldable pub encode_one_time_queue : List Bytes → Bytes
  encode_one_time_queue keys = qt.to_json (array (queue_items keys))

  unfoldable pub items_queue : Items → List Bytes
  items_queue end = []
  items_queue (item v items) = from_b64 qt lib (to_text v) ∷ items_queue items

  -- QJsonDocument::fromJson(bytes).array(), empty where there is no document or no array.
  abbrev pub array_of : Option Json → Items
  array_of none = end
  array_of (some j) = to_array j

  unfoldable pub decode_one_time_queue : Bytes → List Bytes
  decode_one_time_queue encoded =
      if is_empty encoded then [] else items_queue (array_of (qt.from_json encoded))

  abbrev pub one_time_queue : VaultService → List Bytes
  one_time_queue v = decode_one_time_queue (value_or (load_secret v "one_time_prekeys") [])

  abbrev pub prekey_entry : KeyPair → Bytes
  prekey_entry pair = qt.to_json (
      object (
        Json.insert (Json.insert nil "pub" (text (to_b64 qt lib pair.public))) "priv"
          (text (to_b64 qt lib pair.private))))

  -- The loop of `publishOneTimePrekeys`, with what each `crypto_kx_keypair` returns: the entries to
  -- add and the public keys.
  unfoldable pub new_prekeys : (ℕ → Option KeyPair) → ℕ → List Bytes × List Bytes
  new_prekeys pairs zero = ([], [])
  new_prekeys pairs (suc count) =
      let (entries, created) = new_prekeys (λ n. pairs (suc n)) count in
      elim (pairs 0) [
        | none ↦ ([], [])
        | some pair ↦ (prekey_entry pair ∷ entries, pair.public ∷ created)
      ]

  unfoldable pub publish_one_time_prekeys :
      Draw → Disk → (ℕ → Option KeyPair) → ℤ → VaultService → List Bytes × VaultService
  publish_one_time_prekeys draw disk pairs (negsuc count) v = ([], v)
  publish_one_time_prekeys draw disk pairs (pos count) v =
      let (entries, created) = new_prekeys pairs count in
      let queue = one_time_queue v ++ entries in
      let (stored, v') =
        store_secret qt lib draw disk v "one_time_prekeys" (encode_one_time_queue queue) in
      if leb count 0 || not v.unlocked || not lib.init_ok then ([], v) else (created, v')

  -- The private key of an entry.
  abbrev pub entry_key : Bytes → Bytes
  entry_key entry = from_b64 qt lib (to_text (value (object_of qt lib (qt.from_json entry)) "priv"))

  -- The result of the save is not looked at.
  unfoldable pub consume_one_time_prekey : Draw → Disk → VaultService → Option Bytes × VaultService
  consume_one_time_prekey draw disk v = elim (one_time_queue v) [
    | [] ↦ (none, v)
    | entry ∷ queue ↦ (
      some (entry_key entry),
      (store_secret qt lib draw disk v "one_time_prekeys" (encode_one_time_queue queue)).1,
    )
  ]
