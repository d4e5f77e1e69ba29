-- ===== src/Crypto/Ratchet/Refusals.antt =====
-- Messages that a session of src/crypto/DoubleRatchetSession.cpp should refuse: a message for the
-- second time, a forged one, and a session's own.
use vox_desktop.Base.{
  List, ℕ, ◌+◌, ◌≤◌, ◌<◌, ◌≡◌, ◌∙◌, refl, ap, Option, none, some, Bytes, ◌++◌, length, is_empty,
  false, arith,
}
use vox_desktop.Base.Int.{pos, int_limit}
use vox_desktop.Network.Parsing.RoundTrip.{Each}
use vox_desktop.Qt.{Qt}
use vox_desktop.Crypto.Sodium.{Sodium, SodiumLaws}
use vox_desktop.Crypto.Helpers.{aead_encrypt, aead_decrypt}
use vox_desktop.Crypto.Ratchet.{
  RatchetMessage, DoubleRatchetSession, from_shared_secret, encrypt, decrypt, open_message,
  serialize, deserialize,
}
use vox_desktop.Crypto.Ratchet.Past.{
  Call, IsBelowLimit, after_calls, decrypt-IsPast_own, decrypt_past, after_calls-IsPast,
}
use vox_desktop.Crypto.Ratchet.Chain.{
  SendsAt, ReceivesAt, chain_at, key_at, nonce_at, message_at, encrypt-message_at, decrypt-reached,
  decrypt-message_at, decrypt_behind, deserialize-message_at,
}
use vox_desktop.Crypto.Ratchet.Delivery.{
  base_chain_key, length-base_chain_key, fresh-SendsAt, fresh-ReceivesAt,
}

module _ (qt : Qt) (lib : Sodium) where
  -- A message that a session has decrypted, with a counter below the largest `int`, it refuses from
  -- then on: after any later calls of `encrypt` and `decrypt`, in which the messages that are
  -- decrypted have counters below the largest `int` too, whether they are genuine or not. The
  -- associated data do not matter, and the refusal leaves the session as it is.
  pub decrypt_twice :
      (s s' : DoubleRatchetSession) (m : RatchetMessage) (bytes text ad ad' : Bytes) (n : ℕ)
      (calls : List Call)
      → deserialize bytes ≡ some m
      → m.counter ≡ pos n
      → n + 1 < int_limit
      → decrypt qt lib s bytes ad ≡ (some text, s')
      → Each IsBelowLimit calls
      → let later = after_calls qt lib s' calls in decrypt qt lib later bytes ad' ≡ (none, later)
  decrypt_twice s s' m bytes text ad ad' n calls e c h d below =
      let past = decrypt-IsPast_own qt lib s s' m bytes text ad n e c h d in
      decrypt_past qt lib n (after_calls qt lib s' calls) m bytes ad' e c
        (after_calls-IsPast qt lib n s' calls past below)

module _ (qt : Qt) (lib : Sodium) (laws : SodiumLaws lib) (base : Bytes)
    (keyed : length base ≡ 32) where
  -- Where libsodium keeps its laws: a message that fails to decrypt, with a counter n that is not
  -- behind the session, is refused, and yet moves the receiving chain on to n.
  forged_message_moves_chain :
      (b n : ℕ) (s : DoubleRatchetSession) (m : RatchetMessage) (bytes ad : Bytes)
      → ReceivesAt qt lib base b s
      → deserialize bytes ≡ some m
      → m.counter ≡ pos n
      → b ≤ n
      → n < int_limit
      → aead_decrypt lib (key_at qt lib base n) m.nonce m.ciphertext (s.associated_data ++ ad)
        ≡ none
      → decrypt qt lib s bytes ad
        ≡ (none, record s { receive_chain_key = chain_at qt lib base n; receive_counter = pos n })
  unfolding open_message
  forged_message_moves_chain b n s m bytes ad at e c h k f =
      decrypt-reached qt lib laws base keyed b n s m bytes ad at e c h k
      ∙ rw (c, open_message) (rw (f, open_message))

  -- Where libsodium keeps its laws: every genuine message from the session's place up to a counter
  -- n would be decrypted, and after a forged message with counter n none of them is.
  pub forged_message_blocks :
      (b k n : ℕ) (s : DoubleRatchetSession) (m : RatchetMessage) (bytes forged_ad text ad : Bytes)
      → ReceivesAt qt lib base b s
      → deserialize bytes ≡ some m
      → m.counter ≡ pos n
      → b ≤ k
      → k < n
      → n < int_limit
      → aead_decrypt lib
          (key_at qt lib base n)
          m.nonce
          m.ciphertext
          (s.associated_data ++ forged_ad)
        ≡ none
      → let genuine = serialize (message_at qt lib base k s.associated_data text ad) in
        ((decrypt qt lib s genuine ad).0 ≡ some text)
        × ((decrypt qt lib (decrypt qt lib s bytes forged_ad).1 genuine ad).0 ≡ none)
  forged_message_blocks b k n s m bytes forged_ad text ad at e c h j i f =
      let moved = forged_message_moves_chain b n s m bytes forged_ad at e c (omega arith) i f in
      (
        ap (λ (p : Option Bytes × DoubleRatchetSession). p.0)
            (decrypt-message_at qt lib laws base keyed b k s text ad at h (omega arith)),
        rw moved (
            ap (λ (p : Option Bytes × DoubleRatchetSession). p.0)
              (decrypt_behind qt lib n k _ _ _ ad refl
                (deserialize-message_at qt lib laws base keyed k s.associated_data text ad
                  (omega arith))
                refl j)),
      )

  -- Where libsodium keeps its laws: two sessions at the same place of one chain seal their next
  -- messages, whatever the texts, under one key and one nonce.
  pub same_place_same_nonce :
      (n : ℕ) (a b : DoubleRatchetSession) (text_a text_b ad_a ad_b : Bytes)
      → SendsAt qt lib base n a
      → SendsAt qt lib base n b
      → n + 1 < int_limit
      → (key : Bytes) × (nonce : Bytes) × ((encrypt qt lib a text_a ad_a).0
          ≡ some (
              serialize (record {
                counter = pos n;
                nonce = nonce;
                ciphertext = aead_encrypt lib key nonce text_a (a.associated_data ++ ad_a);
              })))
        × ((encrypt qt lib b text_b ad_b).0
            ≡ some (
                serialize (record {
                  counter = pos n;
                  nonce = nonce;
                  ciphertext = aead_encrypt lib key nonce text_b (b.associated_data ++ ad_b);
                })))
  same_place_same_nonce n a b text_a text_b ad_a ad_b at_a at_b h = (
    key_at qt lib base n,
    nonce_at qt lib base n,
    ap (λ (p : Option Bytes × DoubleRatchetSession). p.0)
        (encrypt-message_at qt lib laws base keyed n a text_a ad_a at_a h),
    ap (λ (p : Option Bytes × DoubleRatchetSession). p.0)
        (encrypt-message_at qt lib laws base keyed n b text_b ad_b at_b h),
  )

module _ (qt : Qt) (lib : Sodium) (laws : SodiumLaws lib) where
  -- Where libsodium keeps its laws: the first message of a session from a non-empty shared secret
  -- comes back to the session that sent it and is decrypted there, as if the peer had sent it.
  pub reflected_message_accepted :
      (secret own text ad : Bytes)
      → is_empty secret ≡ false
      → let (sent, s) = encrypt qt lib (from_shared_secret qt lib secret own) text ad in
        (bytes : Bytes) × (sent ≡ some bytes) × ((decrypt qt lib s bytes ad).0 ≡ some text)
  reflected_message_accepted secret own text ad h =
      let base = base_chain_key qt lib secret in
      let keyed = length-base_chain_key qt lib laws secret h in
      let s = from_shared_secret qt lib secret own in
      let sent =
        encrypt-message_at qt lib laws base keyed 0 s text ad (fresh-SendsAt qt lib laws secret own)
          (omega arith) in
      let at = fresh-ReceivesAt qt lib laws secret own in
      let moved : DoubleRatchetSession = record s {
        send_chain_key = chain_at qt lib base 1;
        send_counter = pos 1;
      } in
      (
        serialize (message_at qt lib base 0 s.associated_data text ad),
        ap (λ (p : Option Bytes × DoubleRatchetSession). p.0) sent,
        rw sent (
            ap (λ (p : Option Bytes × DoubleRatchetSession). p.0)
              (decrypt-message_at qt lib laws base keyed 0 0 moved text ad
                (record { counter = at.counter; chain = at.chain }) (omega arith) (omega arith))),
      )
