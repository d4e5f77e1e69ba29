-- ===== src/Checks/Ratchet.antt =====
-- The theorems on src/crypto/DoubleRatchetSession.cpp at concrete inputs.
use vox_desktop.Base.{
  ◌≡◌, ap, refl, true, false, Option, some, none, List, length, Bytes, codes, [], ◌∷◌, ◌++◌,
  replicate, arith,
}
use vox_desktop.Base.Int.{pos}
use vox_desktop.Crypto.Helpers.{aead_decrypt, aead_encrypt}
use vox_desktop.Crypto.Ratchet.{
  RatchetMessage, DoubleRatchetSession, from_shared_secret, encrypt, decrypt, serialize,
  deserialize,
}
use vox_desktop.Crypto.Ratchet.Wire.{deserialize-serialize}
use vox_desktop.Crypto.Ratchet.Past.{Call, encrypting, decrypting, IsBelowLimit, after_calls}
use vox_desktop.Crypto.Ratchet.Chain.{
  key_at, message_at, decrypt-message_at, deserialize-message_at,
}
use vox_desktop.Crypto.Ratchet.Delivery.{
  Sending, exchange, exchange_lem, base_chain_key, length-base_chain_key, fresh-SendsAt,
  fresh-ReceivesAt,
}
use vox_desktop.Crypto.Ratchet.Refusals.{
  decrypt_twice, forged_message_blocks, same_place_same_nonce, reflected_message_accepted,
}
use vox_desktop.Checks.Library.{sodium, sodium_laws, qt}

abbrev secret : Bytes
secret = codes "secret"

abbrev own : Bytes
own = codes "ad"

abbrev fresh : DoubleRatchetSession
fresh = from_shared_secret qt sodium secret own

abbrev base : Bytes
base = base_chain_key qt sodium secret

-- Four messages, the second and third of which are lost.
abbrev script : List Sending
script =
    record { arrives = true; text = codes "one"; ad = [] }
    ∷ record { arrives = false; text = codes "two"; ad = [] }
    ∷ record { arrives = false; text = codes "three"; ad = [] }
    ∷ record { arrives = true; text = codes "four"; ad = codes "meta" }
    ∷ []

exchange_lem_example :
    exchange qt sodium
      (from_shared_secret qt sodium secret own)
      (from_shared_secret qt sodium secret own)
      script
    ≡ some (codes "one") ∷ some (codes "four") ∷ []
exchange_lem_example = exchange_lem qt sodium sodium_laws secret own script refl (omega arith)

abbrev stray : RatchetMessage
stray = record { counter = pos 5; nonce = replicate 12 0; ciphertext = replicate 16 0 }

stray-parses : deserialize (serialize stray) ≡ some stray
stray-parses = deserialize-serialize stray (omega arith) refl (omega arith)

stray-fails :
    aead_decrypt sodium
      (key_at qt sodium base 5)
      stray.nonce
      stray.ciphertext
      (fresh.associated_data ++ [])
    ≡ none
unfolding aead_decrypt
stray-fails = ground arith

forged_message_blocks_example :
    let genuine = serialize (message_at qt sodium base 2 fresh.associated_data (codes "hi") []) in
    ((decrypt qt sodium fresh genuine []).0 ≡ some (codes "hi"))
    × ((decrypt qt sodium (decrypt qt sodium fresh (serialize stray) []).1 genuine []).0 ≡ none)
forged_message_blocks_example =
    forged_message_blocks qt sodium sodium_laws base
      (length-base_chain_key qt sodium sodium_laws secret refl) 0 2 5 fresh stray (serialize stray)
      [] (codes "hi") [] (fresh-ReceivesAt qt sodium sodium_laws secret own) stray-parses refl
      (omega arith) (omega arith) (omega arith) stray-fails

abbrev first : Bytes
first = serialize (message_at qt sodium base 0 fresh.associated_data (codes "hi") [])

-- A text is sent, and a forged message comes.
abbrev later_calls : List Call
later_calls = encrypting (codes "ho") [] ∷ decrypting (serialize stray) [] ∷ []

stray-below : IsBelowLimit (decrypting (serialize stray) [])
stray-below = rw stray-parses refl

decrypt_twice_example :
    let later = after_calls qt sodium (decrypt qt sodium fresh first []).1 later_calls in
    decrypt qt sodium later first [] ≡ (none, later)
decrypt_twice_example =
    decrypt_twice qt sodium fresh (decrypt qt sodium fresh first []).1
      (message_at qt sodium base 0 fresh.associated_data (codes "hi") []) first (codes "hi") [] [] 0
      later_calls first-parses refl (omega arith) first-opens (tt, (stray-below, tt))
  where
    keyed : length base ≡ 32
    keyed = length-base_chain_key qt sodium sodium_laws secret refl

    first-parses :
        deserialize first ≡ some (message_at qt sodium base 0 fresh.associated_data (codes "hi") [])
    first-parses =
        deserialize-message_at qt sodium sodium_laws base keyed 0 fresh.associated_data (codes "hi")
          [] (omega arith)

    opened : (decrypt qt sodium fresh first []).0 ≡ some (codes "hi")
    opened =
        ap (λ (p : Option Bytes × DoubleRatchetSession). p.0)
          (decrypt-message_at qt sodium sodium_laws base keyed 0 0 fresh (codes "hi") []
            (fresh-ReceivesAt qt sodium sodium_laws secret own) (omega arith) (omega arith))

    first-opens :
        decrypt qt sodium fresh first [] ≡ (some (codes "hi"), (decrypt qt sodium fresh first []).1)
    first-opens = ap (λ (t : Option Bytes). (t, (decrypt qt sodium fresh first []).1)) opened

same_place_same_nonce_example :
    (key : Bytes) × (nonce : Bytes) × ((encrypt qt sodium fresh (codes "to bob") []).0
      ≡ some (
          serialize (record {
            counter = pos 0;
            nonce = nonce;
            ciphertext =
                aead_encrypt sodium key nonce (codes "to bob") (fresh.associated_data ++ []);
          })))
    × ((encrypt qt sodium fresh (codes "to alice") []).0
        ≡ some (
            serialize (record {
              counter = pos 0;
              nonce = nonce;
              ciphertext =
                  aead_encrypt sodium key nonce (codes "to alice") (fresh.associated_data ++ []);
            })))
same_place_same_nonce_example =
    same_place_same_nonce qt sodium sodium_laws base
      (length-base_chain_key qt sodium sodium_laws secret refl) 0 fresh fresh (codes "to bob")
      (codes "to alice") [] [] (fresh-SendsAt qt sodium sodium_laws secret own)
      (fresh-SendsAt qt sodium sodium_laws secret own) (omega arith)

reflected_message_accepted_example :
    let (sent, s) = encrypt qt sodium (from_shared_secret qt sodium secret own) (codes "hi") [] in
    (bytes : Bytes) × (sent ≡ some bytes) × ((decrypt qt sodium s bytes []).0 ≡ some (codes "hi"))
reflected_message_accepted_example =
    reflected_message_accepted qt sodium sodium_laws secret own (codes "hi") [] refl
