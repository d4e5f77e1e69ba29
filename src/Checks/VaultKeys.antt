-- ===== src/Checks/VaultKeys.antt =====
-- The theorems on identity keys and prekeys at concrete inputs.
use vox_desktop.Base.{◌≡◌, refl, true, some, codes, [], ◌∷◌, ◌++◌, map, value_or, arith, string_eq}
use vox_desktop.Base.Int.{pos}
use vox_desktop.Base.Dict.{lookup}
use vox_desktop.Crypto.Vault.{VaultService, load_secret}
use vox_desktop.Crypto.Vault.Reopen.{IsOpen}
use vox_desktop.Crypto.Identity.{KeyPair, ensure_identity_keys, identity_keys}
use vox_desktop.Crypto.Identity.Keys.{AreSaves, pair_keys, ensure_identity_keys-keeps}
use vox_desktop.Crypto.Prekeys.{
  one_time_queue, prekey_entry, publish_one_time_prekeys, consume_one_time_prekey,
  encode_one_time_queue,
}
use vox_desktop.Crypto.Prekeys.Queue.{
  first_pairs, publish_one_time_prekeys-queue, consume_one_time_prekey-queue,
  decode-encode_one_time_queue,
}
use vox_desktop.Checks.Library.{sodium, sodium_laws, counting, counting-IsDraw, qt, qt_laws}
use vox_desktop.Checks.Vault.{opened, opened-IsOpen, working}

abbrev pair : KeyPair
pair = record { public = codes "P"; private = codes "S" }

saves : AreSaves (λ n. counting n) (λ n. working)
saves = record { drawn = counting-IsDraw; kept = λ n. refl }

ensure_identity_keys-keeps_example :
    let (finished, v') =
      ensure_identity_keys qt sodium
        (λ n. counting n)
        (λ n. working)
        (some pair)
        (some pair)
        opened in
    (finished ≡ true)
    × IsOpen qt qt_laws sodium sodium_laws "pw" v'
    × (identity_keys v' ≡ some (value_or (identity_keys opened) (pair_keys pair pair)))
ensure_identity_keys-keeps_example =
    ensure_identity_keys-keeps qt qt_laws sodium sodium_laws "pw" (λ n. counting n) (λ n. working)
      pair pair opened opened-IsOpen saves
      (refl, refl, (refl, refl, (refl, refl, (refl, refl, tt))))

publish_one_time_prekeys-queue_example :
    let (created, v') =
      publish_one_time_prekeys qt sodium (counting 1) working (λ i. some pair) (pos 2) opened in
    (created ≡ codes "P" ∷ codes "P" ∷ [])
    × IsOpen qt qt_laws sodium sodium_laws "pw" v'
    × (one_time_queue qt sodium v'
        ≡ one_time_queue qt sodium opened
          ++ map (prekey_entry qt sodium) (first_pairs (λ i. pair) 2))
publish_one_time_prekeys-queue_example =
    publish_one_time_prekeys-queue qt qt_laws sodium sodium_laws "pw" (counting 1) working
      (λ i. pair) 2 opened opened-IsOpen (counting-IsDraw 1) (omega arith)

-- A vault with one prekey in the queue.
abbrev stocked : VaultService
stocked = record opened {
  secrets =
      ("one_time_prekeys", encode_one_time_queue qt sodium (prekey_entry qt sodium pair ∷ [])) ∷ [];
}

stocked-IsOpen : IsOpen qt qt_laws sodium sodium_laws "pw" stocked
stocked-IsOpen = record {
  is_unlocked = opened-IsOpen.is_unlocked;
  key = opened-IsOpen.key;
  key_size = opened-IsOpen.key_size;
  salt_size = opened-IsOpen.salt_size;
  distinct = (unfold lookup in refl, tt);
}

stocked-queue : one_time_queue qt sodium stocked ≡ prekey_entry qt sodium pair ∷ []
unfolding load_secret lookup
stocked-queue =
    decode-encode_one_time_queue qt qt_laws sodium sodium_laws (prekey_entry qt sodium pair ∷ [])

consume_one_time_prekey-queue_example :
    let (key, v') = consume_one_time_prekey qt sodium (counting 1) working stocked in
    (key ≡ some (codes "S"))
    × IsOpen qt qt_laws sodium sodium_laws "pw" v'
    × (one_time_queue qt sodium v' ≡ [])
consume_one_time_prekey-queue_example =
    consume_one_time_prekey-queue qt qt_laws sodium sodium_laws "pw" (counting 1) working pair []
      stocked stocked-IsOpen (counting-IsDraw 1) stocked-queue
