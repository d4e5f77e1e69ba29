-- ===== src/Crypto/Prekeys/Queue.antt =====
-- src/crypto/PrekeyManager.cpp: the one-time prekeys are a queue that outlives its encoding.
use vox_desktop.Base.{
  ℕ, zero, suc, ◌<◌, ◌≡◌, refl, ap, String, string_eq, false, not, ◌||◌, Bytes, some, List, [], ◌∷◌,
  ◌++◌, map, leb, arith,
}
use vox_desktop.Base.Int.{pos}
use vox_desktop.Base.Dict.{lookup-insert}
use vox_desktop.Qt.{Qt, QtLaws}
use vox_desktop.Qt.Json
use vox_desktop.Qt.Json.{nil, text, array, object, value, to_text}
use vox_desktop.Crypto.Sodium.{Sodium, SodiumLaws, Draw, IsDraw}
use vox_desktop.Crypto.Vault.{VaultService, Disk, to_b64, store_secret}
use vox_desktop.Crypto.Vault.Reopen.{IsOpen}
use vox_desktop.Crypto.Vault.Durability.{store_secret-IsOpen, load_secret-eq}
use vox_desktop.Crypto.Identity.{KeyPair}
use vox_desktop.Crypto.Prekeys.{
  queue_items, encode_one_time_queue, items_queue, decode_one_time_queue, one_time_queue,
  prekey_entry, new_prekeys, publish_one_time_prekeys, entry_key, consume_one_time_prekey,
}

-- The first pairs that the generator returns.
abbrev pub first_pairs : (ℕ → KeyPair) → ℕ → List KeyPair
first_pairs pairs zero = []
first_pairs pairs (suc n) = pairs 0 ∷ first_pairs (λ i. pairs (suc i)) n

module _ (qt : Qt) (qt_laws : QtLaws qt) (lib : Sodium) (laws : SodiumLaws lib) where
  items_queue-items : (q : List Bytes) → items_queue qt lib (queue_items qt lib q) ≡ q
  unfolding items_queue queue_items
  items_queue-items [] = refl
  items_queue-items (key ∷ q) =
      rw (qt_laws.base64_round_trip key) (ap (λ (l : List Bytes). key ∷ l) (items_queue-items q))

  -- The queue is read back from its encoding.
  pub decode-encode_one_time_queue :
      (q : List Bytes) → decode_one_time_queue qt lib (encode_one_time_queue qt lib q) ≡ q
  unfolding decode_one_time_queue encode_one_time_queue
  decode-encode_one_time_queue q =
      rw
        (
          qt_laws.json_filled (array (queue_items qt lib q)) tt,
          qt_laws.json_round_trip (array (queue_items qt lib q)) tt,
        )
        (items_queue-items q)

  entry_key-entry : (pair : KeyPair) → entry_key qt lib (prekey_entry qt lib pair) ≡ pair.private
  unfolding value Json.insert
  entry_key-entry pair =
      rw
        (qt_laws.json_round_trip
          (object (
            Json.insert (Json.insert nil "pub" (text (to_b64 qt lib pair.public))) "priv"
              (text (to_b64 qt lib pair.private))))
          tt)
        (qt_laws.base64_round_trip pair.private)

  new_prekeys-first :
      (pairs : ℕ → KeyPair) (n : ℕ)
      → new_prekeys qt lib (λ i. some (pairs i)) n ≡ (
        map (prekey_entry qt lib) (first_pairs pairs n),
        map (λ (p : KeyPair). p.public) (first_pairs pairs n),
      )
  unfolding new_prekeys
  new_prekeys-first pairs zero = refl
  new_prekeys-first pairs (suc n) = rw (new_prekeys-first (λ i. pairs (suc i)) n) refl

  one_time_queue-store :
      (password : String) (draw : Draw) (disk : Disk) (v : VaultService) (q : List Bytes)
      → IsOpen qt qt_laws lib laws password v
      → IsDraw draw
      → let v' : VaultService =
          (store_secret qt lib draw disk v "one_time_prekeys" (encode_one_time_queue qt lib q)).1 in
        IsOpen qt qt_laws lib laws password v' × (one_time_queue qt lib v' ≡ q)
  unfolding encode_one_time_queue
  one_time_queue-store password draw disk v q o d =
      let encoded : Bytes = encode_one_time_queue qt lib q in
      let (o', secrets, saved) =
        store_secret-IsOpen qt qt_laws lib laws password draw disk v "one_time_prekeys" encoded o d
          refl (qt_laws.json_filled (array (queue_items qt lib q)) tt) in
      (
        o',
        rw
            (
              load_secret-eq qt qt_laws lib laws password _ "one_time_prekeys" o' refl,
              secrets,
              lookup-insert v.secrets "one_time_prekeys" "one_time_prekeys" encoded,
            )
            (decode-encode_one_time_queue q),
      )

  -- Where libsodium and Qt keep their laws: on an open vault, with a generator that does not fail,
  -- `publishOneTimePrekeys` of a positive count returns the public keys of that many new pairs,
  -- keeps the vault open and puts the pairs at the end of the queue, whether the file is written or
  -- not.
  pub publish_one_time_prekeys-queue :
      (password : String) (draw : Draw) (disk : Disk) (pairs : ℕ → KeyPair) (count : ℕ)
      (v : VaultService)
      → IsOpen qt qt_laws lib laws password v
      → IsDraw draw
      → 0 < count
      → let (created, v') =
          publish_one_time_prekeys qt lib draw disk (λ i. some (pairs i)) (pos count) v in
        (created ≡ map (λ (p : KeyPair). p.public) (first_pairs pairs count))
        × IsOpen qt qt_laws lib laws password v'
        × (one_time_queue qt lib v'
            ≡ one_time_queue qt lib v ++ map (prekey_entry qt lib) (first_pairs pairs count))
  unfolding publish_one_time_prekeys
  publish_one_time_prekeys-queue password draw disk pairs count v o d h =
      let guard : (leb count 0 || not v.unlocked || not lib.init_ok) ≡ false =
        ground (arith, o.is_unlocked, laws.ready) in
      let (o', same) =
        one_time_queue-store password draw disk v
          (one_time_queue qt lib v ++ map (prekey_entry qt lib) (first_pairs pairs count)) o d in
      rw (guard, new_prekeys-first pairs count) (refl, o', same)

  consume_first :
      (draw : Draw) (disk : Disk) (entry : Bytes) (rest : List Bytes) (v : VaultService)
      → one_time_queue qt lib v ≡ entry ∷ rest
      → consume_one_time_prekey qt lib draw disk v ≡ (
        some (entry_key qt lib entry),
        (store_secret qt lib draw disk v "one_time_prekeys" (encode_one_time_queue qt lib rest)).1,
      )
  unfolding consume_one_time_prekey
  consume_first draw disk entry rest v h = rw (h, consume_one_time_prekey) refl

  -- Where libsodium and Qt keep their laws: on an open vault whose queue begins with the entry of a
  -- pair, `consumeOneTimePrekey` returns its private key, keeps the vault open and leaves the rest
  -- of the queue, whether the file is written or not.
  pub consume_one_time_prekey-queue :
      (password : String) (draw : Draw) (disk : Disk) (pair : KeyPair) (rest : List Bytes)
      (v : VaultService)
      → IsOpen qt qt_laws lib laws password v
      → IsDraw draw
      → one_time_queue qt lib v ≡ prekey_entry qt lib pair ∷ rest
      → let (key, v') = consume_one_time_prekey qt lib draw disk v in
        (key ≡ some pair.private)
        × IsOpen qt qt_laws lib laws password v'
        × (one_time_queue qt lib v' ≡ rest)
  consume_one_time_prekey-queue password draw disk pair rest v o d h =
      let (o', same) = one_time_queue-store password draw disk v rest o d in
      rw (consume_first draw disk (prekey_entry qt lib pair) rest v h)
        (ap (λ (b : Bytes). some b) (entry_key-entry pair), o', same)
