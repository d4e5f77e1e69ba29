-- ===== src/Crypto/Ratchet/Delivery.antt =====
-- Two sessions of src/crypto/DoubleRatchetSession.cpp from one shared secret, one that sends and
-- one that receives, over a channel that may lose messages.
use vox_desktop.Base.{
  ℕ, suc, ◌+◌, ◌≤◌, ◌<◌, ◌≡◌, refl, ap, Bool, true, false, Option, some, List, [], ◌∷◌, ◌++◌, Bytes,
  codes, length, is_empty, if◌then◌else◌, arith, inl, inr, Bool-cases,
}
use native.Mathlib.Nat.{le_refl}
use vox_desktop.Base.Int.{pos, int_limit}
use vox_desktop.Qt.{Qt}
use vox_desktop.Crypto.Sodium.{Sodium, SodiumLaws}
use vox_desktop.Crypto.Hkdf.{hkdf_sha256}
use vox_desktop.Crypto.Hkdf.Rfc5869.{length-hkdf_sha256}
use vox_desktop.Crypto.Ratchet.{
  DoubleRatchetSession, from_shared_secret, encrypt, decrypt, serialize,
}
use vox_desktop.Crypto.Ratchet.Chain.{
  SendsAt, ReceivesAt, chain_at, message_at, encrypt-message_at, decrypt-message_at,
}

-- A message to send: whether the channel delivers it, its text and its associated data.
pub record Sending : Type 0 where
  pub arrives : Bool
  pub text : Bytes
  pub ad : Bytes

-- The texts of the messages that arrive.
abbrev pub arriving : List Sending → List (Option Bytes)
arriving [] = []
arriving (m ∷ ms) = if m.arrives then some m.text ∷ arriving ms else arriving ms

module _ (qt : Qt) (lib : Sodium) where
  abbrev pub base_chain_key : Bytes → Bytes
  base_chain_key secret =
      hkdf_sha256 lib secret (codes "vox-ratchet-chain") (codes "vox-e2ee-v1/chain") (pos 32)

  -- What the receiver returns for a message that `encrypt` gave, and the session afterwards.
  deliver :
      Option Bytes
      → Bool
      → DoubleRatchetSession
      → Bytes
      → List (Option Bytes) × DoubleRatchetSession
  deliver (some bytes) true r ad = let (text, r') = decrypt qt lib r bytes ad in (text ∷ [], r')
  deliver _ _ r ad = ([], r)

  -- The results of `decrypt` for the messages that arrive, in order.
  unfoldable pub exchange :
      DoubleRatchetSession → DoubleRatchetSession → List Sending → List (Option Bytes)
  unfolding deliver
  exchange s r [] = []
  exchange s r (m ∷ ms) =
      let (sent, s') = encrypt qt lib s m.text m.ad in
      let (texts, r') = deliver sent m.arrives r m.ad in texts ++ exchange s' r' ms

module _ (qt : Qt) (lib : Sodium) (laws : SodiumLaws lib) (base : Bytes)
    (keyed : length base ≡ 32) where
  received :
      (n b : ℕ) (s r : DoubleRatchetSession) (text ad : Bytes)
      → ReceivesAt qt lib base b r
      → s.associated_data ≡ r.associated_data
      → b ≤ n
      → n + 1 < int_limit
      → decrypt qt lib r (serialize (message_at qt lib base n s.associated_data text ad)) ad ≡ (
        some text,
        record r {
          receive_chain_key = chain_at qt lib base (suc n);
          receive_counter = pos (suc n);
        },
      )
  received n b s r text ad at own h k =
      rw own (decrypt-message_at qt lib laws base keyed b n r text ad at h k)

  moved_sender :
      (n : ℕ) (s : DoubleRatchetSession)
      → SendsAt qt lib base
          (suc n)
          (record s { send_chain_key = chain_at qt lib base (suc n); send_counter = pos (suc n) })
  moved_sender n s = record { counter = refl; chain = refl }

  moved_receiver :
      (n : ℕ) (s : DoubleRatchetSession)
      → ReceivesAt qt lib base (suc n) (record s {
        receive_chain_key = chain_at qt lib base (suc n);
        receive_counter = pos (suc n);
      })
  moved_receiver n s = record { counter = refl; chain = refl }

  exchange-eq-arriving :
      (ms : List Sending) (n b : ℕ) (s r : DoubleRatchetSession)
      → SendsAt qt lib base n s
      → ReceivesAt qt lib base b r
      → s.associated_data ≡ r.associated_data
      → b ≤ n
      → n + length ms < int_limit
      → exchange qt lib s r ms ≡ arriving ms
  unfolding exchange
  exchange-eq-arriving [] n b s r at_s at_r own h k = refl
  exchange-eq-arriving (m ∷ ms) n b s r at_s at_r own h k =
      let sent = encrypt-message_at qt lib laws base keyed n s m.text m.ad at_s (omega arith) in
      elim (Bool-cases m.arrives) [
        | inl e ↦
            let opened = received n b s r m.text m.ad at_r own h (omega arith) in
            let rest =
              exchange-eq-arriving ms (suc n) (suc n) _ _ (moved_sender n s) (moved_receiver n r)
                own (le_refl (suc n)) (omega arith) in
            rw (sent, e, opened) (ap (λ (t : List (Option Bytes)). some m.text ∷ t) rest)
        | inr e ↦
            rw (sent, e)
              (exchange-eq-arriving ms (suc n) b _ r (moved_sender n s) at_r own (omega arith)
                (omega arith))
      ]

module _ (qt : Qt) (lib : Sodium) (laws : SodiumLaws lib) where
  pub length-base_chain_key :
      (secret : Bytes) → is_empty secret ≡ false → length (base_chain_key qt lib secret) ≡ 32
  length-base_chain_key secret h =
      length-hkdf_sha256 lib laws secret (codes "vox-ratchet-chain") (codes "vox-e2ee-v1/chain") 32
        h (omega arith) (omega arith)

  pub fresh-SendsAt :
      (secret own : Bytes)
      → SendsAt qt lib (base_chain_key qt lib secret) 0 (from_shared_secret qt lib secret own)
  unfolding from_shared_secret
  fresh-SendsAt secret own = record { counter = refl; chain = refl }

  pub fresh-ReceivesAt :
      (secret own : Bytes)
      → ReceivesAt qt lib (base_chain_key qt lib secret) 0 (from_shared_secret qt lib secret own)
  unfolding from_shared_secret
  fresh-ReceivesAt secret own = record { counter = refl; chain = refl }

  -- Where libsodium keeps its laws: of two sessions from one non-empty shared secret and the same
  -- associated data, the second decrypts, out of fewer than 2^31 messages that the first encrypts,
  -- exactly those that the channel delivers, each to its text, whichever the channel loses.
  pub exchange_lem :
      (secret own : Bytes) (ms : List Sending)
      → is_empty secret ≡ false
      → length ms < int_limit
      → exchange qt lib
          (from_shared_secret qt lib secret own)
          (from_shared_secret qt lib secret own)
          ms
        ≡ arriving ms
  exchange_lem secret own ms h k =
      exchange-eq-arriving qt lib laws (base_chain_key qt lib secret)
        (length-base_chain_key secret h) ms 0 0 _ _ (fresh-SendsAt secret own)
        (fresh-ReceivesAt secret own) refl (omega arith) (omega arith)
