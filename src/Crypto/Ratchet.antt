-- ===== src/Crypto/Ratchet.antt =====
-- src/crypto/DoubleRatchetSession.cpp: the message format and the session. A method that changes
-- the session returns the new session beside its result.
pub mod Wire
pub mod Chain
pub mod Past
pub mod Delivery
pub mod Refusals
use vox_desktop.Base.{
  ℕ, zero, suc, ◌+◌, ◌*◌, ◌-◌, ◌/◌, ◌%◌, ◌^◌, String, Bool, true, false, ◌||◌, Option, none, some,
  Bytes, codes, length, [], ◌∷◌, ◌++◌, is_empty, take, drop, ltb, if◌then◌else◌,
}
use vox_desktop.Base.Int.{ℤ, pos, negsuc, suc_int, ltb_int, to_u32, of_u32}
use vox_desktop.Qt.{Qt}
use vox_desktop.Crypto.Sodium.{Sodium, chacha20_nonce_bytes, chacha20_tag_bytes, chacha20_key_bytes}
use vox_desktop.Crypto.Helpers.{hmac_sha256, aead_encrypt, aead_decrypt}
use vox_desktop.Crypto.Hkdf.{hkdf_sha256}

pub record RatchetMessage : Type 0 where
  pub counter : ℤ
  pub nonce : Bytes
  pub ciphertext : Bytes

abbrev pub ratchet_counter_bytes : ℕ
ratchet_counter_bytes = 4

abbrev pub ratchet_header_bytes : ℕ
ratchet_header_bytes = ratchet_counter_bytes + chacha20_nonce_bytes

abbrev pub ratchet_min_serialized_bytes : ℕ
ratchet_min_serialized_bytes = ratchet_header_bytes + chacha20_tag_bytes

-- The four bytes of a quint32, most significant first, and the number that they stand for.
abbrev pub big_endian : ℕ → Bytes
big_endian n = n / 2 ^ 24 % 256 ∷ n / 2 ^ 16 % 256 ∷ n / 2 ^ 8 % 256 ∷ n % 256 ∷ []

abbrev pub from_big_endian : Bytes → ℕ
from_big_endian (a ∷ b ∷ c ∷ d ∷ rest) = a * 2 ^ 24 + b * 2 ^ 16 + c * 2 ^ 8 + d
from_big_endian _ = 0

unfoldable pub serialize : RatchetMessage → Bytes
serialize m = (big_endian (to_u32 m.counter) ++ m.nonce) ++ m.ciphertext

unfoldable pub deserialize : Bytes → Option RatchetMessage
deserialize bytes =
    if ltb (length bytes) ratchet_min_serialized_bytes
    then none
    else some (record {
      counter = of_u32 (from_big_endian bytes);
      nonce = take chacha20_nonce_bytes (drop ratchet_counter_bytes bytes);
      ciphertext = drop ratchet_header_bytes bytes;
    })

pub record DoubleRatchetSession : Type 0 where
  pub root_key : Bytes
  pub send_chain_key : Bytes
  pub receive_chain_key : Bytes
  pub associated_data : Bytes
  pub send_counter : ℤ
  pub receive_counter : ℤ

module _ (qt : Qt) (lib : Sodium) where
  -- IntLabel
  abbrev pub int_label : String → ℤ → Bytes
  int_label prefix counter = codes prefix ++ (b':' ∷ qt.number counter)

  unfoldable pub from_shared_secret : Bytes → Bytes → DoubleRatchetSession
  from_shared_secret shared_secret associated_data =
      let base_chain_key =
        hkdf_sha256 lib shared_secret (codes "vox-ratchet-chain") (codes "vox-e2ee-v1/chain")
          (pos chacha20_key_bytes) in
      record {
        root_key = shared_secret;
        send_chain_key = base_chain_key;
        receive_chain_key = base_chain_key;
        associated_data = associated_data;
        send_counter = pos 0;
        receive_counter = pos 0;
      }

  unfoldable pub next_message_key : DoubleRatchetSession → Bool → ℤ → Bytes
  next_message_key s sending counter =
      hmac_sha256 lib (if sending then s.send_chain_key else s.receive_chain_key)
        (int_label "msg" counter)

  unfoldable pub next_nonce : Bytes → Bytes
  next_nonce message_key = take chacha20_nonce_bytes (hmac_sha256 lib message_key (codes "nonce"))

  unfoldable pub advance_chain : DoubleRatchetSession → Bool → ℤ → DoubleRatchetSession
  advance_chain s true counter = record s {
    send_chain_key = hmac_sha256 lib s.send_chain_key (int_label "chain" counter);
  }
  advance_chain s false counter = record s {
    receive_chain_key = hmac_sha256 lib s.receive_chain_key (int_label "chain" counter);
  }

  unfoldable pub encrypt :
      DoubleRatchetSession → Bytes → Bytes → Option Bytes × DoubleRatchetSession
  unfolding next_message_key next_nonce advance_chain
  encrypt s plaintext ad =
      let message_key = next_message_key s true s.send_counter in
      let nonce = next_nonce message_key in
      let local_ad = s.associated_data ++ ad in
      let ciphertext = aead_encrypt lib message_key nonce plaintext local_ad in
      let advanced = advance_chain s true s.send_counter in
      let m : RatchetMessage = record {
        counter = s.send_counter;
        nonce = nonce;
        ciphertext = ciphertext;
      } in
      if is_empty message_key
      then (none, s)
      else if is_empty ciphertext
      then (none, s)
      else (some (serialize m), record advanced { send_counter = suc_int s.send_counter })

  -- The rounds of `while (m_receiveCounter < parsed->counter)`: how far apart the counters are.
  abbrev pub rounds : ℤ → ℤ → ℕ
  rounds (pos a) (pos b) = b - a
  rounds (negsuc a) (pos b) = b + suc a
  rounds (negsuc a) (negsuc b) = a - b
  rounds (pos a) (negsuc b) = 0

  unfoldable pub catch_up : ℕ → ℤ → DoubleRatchetSession → DoubleRatchetSession
  unfolding advance_chain
  catch_up zero counter s = s
  catch_up (suc fuel) counter s =
      let advanced = advance_chain s false s.receive_counter in
      let rest =
        catch_up fuel counter (record advanced { receive_counter = suc_int s.receive_counter }) in
      if ltb_int s.receive_counter counter then rest else s

  -- `decrypt` after the loop, with the message key of the chain that it reached.
  unfoldable pub open_message :
      DoubleRatchetSession → RatchetMessage → Bytes → Option Bytes × DoubleRatchetSession
  unfolding next_message_key advance_chain
  open_message s parsed ad =
      let message_key = next_message_key s false parsed.counter in
      let local_ad = s.associated_data ++ ad in
      let plaintext = aead_decrypt lib message_key parsed.nonce parsed.ciphertext local_ad in
      let advanced = advance_chain s false parsed.counter in
      elim plaintext [
        | none ↦ (none, s)
        | some text ↦ (some text, record advanced { receive_counter = suc_int parsed.counter })
      ]

  unfoldable pub decrypt :
      DoubleRatchetSession → Bytes → Bytes → Option Bytes × DoubleRatchetSession
  unfolding catch_up open_message
  decrypt s serialized_message ad = elim (deserialize serialized_message) [
    | none ↦ (none, s)
    | some parsed ↦
        let caught_up = catch_up (rounds s.receive_counter parsed.counter) parsed.counter s in
        if ltb_int parsed.counter s.receive_counter
        then (none, s)
        else open_message caught_up parsed ad
  ]
