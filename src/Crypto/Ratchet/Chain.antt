-- ===== src/Crypto/Ratchet/Chain.antt =====
-- The symmetric ratchet of src/crypto/DoubleRatchetSession.cpp seen from outside: the chain keys
-- that follow from a first one, the message that stands at each place of the chain, and what
-- `encrypt` and `decrypt` do in a session that has reached a place.
use vox_desktop.Base.{
  ℕ, zero, suc, ◌+◌, ◌-◌, ◌≤◌, ◌<◌, ◌≡◌, ◌∙◌, refl, none, some, Bytes, codes, length, length-take,
  ◌++◌, take, is_empty, is_empty-false, false, arith, lt→ltb, ltb-ge,
}
use vox_desktop.Base.Int.{pos, int_limit, suc_int}
use vox_desktop.Qt.{Qt}
use vox_desktop.Crypto.Sodium.{Sodium, SodiumLaws}
use vox_desktop.Crypto.Helpers.{hmac_sha256, aead_encrypt}
use vox_desktop.Crypto.Helpers.Guards.{
  length-hmac_sha256, length-aead_encrypt, aead_decrypt-encrypt,
}
use vox_desktop.Crypto.Ratchet.{
  RatchetMessage, DoubleRatchetSession, serialize, deserialize, int_label, encrypt, decrypt,
  catch_up, open_message,
}
use vox_desktop.Crypto.Ratchet.Wire.{deserialize-serialize}

module _ (qt : Qt) (lib : Sodium) (base : Bytes) where
  -- The chain key after n messages.
  abbrev pub chain_at : ℕ → Bytes
  chain_at zero = base
  chain_at (suc n) = hmac_sha256 lib (chain_at n) (int_label qt lib "chain" (pos n))

  -- The key and the nonce of message n.
  abbrev pub key_at : ℕ → Bytes
  key_at n = hmac_sha256 lib (chain_at n) (int_label qt lib "msg" (pos n))

  abbrev pub nonce_at : ℕ → Bytes
  nonce_at n = take 12 (hmac_sha256 lib (key_at n) (codes "nonce"))

  -- Message n: a text sealed for a session with associated data `own`, with `ad` of its own.
  abbrev pub message_at : ℕ → Bytes → Bytes → Bytes → RatchetMessage
  message_at n own text ad = record {
    counter = pos n;
    nonce = nonce_at n;
    ciphertext = aead_encrypt lib (key_at n) (nonce_at n) text (own ++ ad);
  }

  pub record SendsAt (n : ℕ) (s : DoubleRatchetSession) : Type 0 where
    pub counter : s.send_counter ≡ pos n
    pub chain : s.send_chain_key ≡ chain_at n

  pub record ReceivesAt (n : ℕ) (s : DoubleRatchetSession) : Type 0 where
    pub counter : s.receive_counter ≡ pos n
    pub chain : s.receive_chain_key ≡ chain_at n

module _ (qt : Qt) (lib : Sodium) (laws : SodiumLaws lib) (base : Bytes)
    (keyed : length base ≡ 32) where
  length-chain_at : (n : ℕ) → length (chain_at qt lib base n) ≡ 32
  length-chain_at zero = keyed
  length-chain_at (suc n) =
      length-hmac_sha256 lib laws (chain_at qt lib base n) _
        (is_empty-false (chain_at qt lib base n) (omega (arith, length-chain_at n)))

  length-key_at : (n : ℕ) → length (key_at qt lib base n) ≡ 32
  length-key_at n =
      length-hmac_sha256 lib laws (chain_at qt lib base n) _
        (is_empty-false (chain_at qt lib base n) (omega (arith, length-chain_at n)))

  length-nonce_at : (n : ℕ) → length (nonce_at qt lib base n) ≡ 12
  length-nonce_at n =
      let key = key_at qt lib base n in
      omega (
        arith,
        length-take 12 (hmac_sha256 lib key (codes "nonce")),
        length-hmac_sha256 lib laws key (codes "nonce")
            (is_empty-false key (omega (arith, length-key_at n))),
      )

  length-ciphertext_at :
      (n : ℕ) (own text ad : Bytes)
      → length (message_at qt lib base n own text ad).ciphertext ≡ length text + 16
  length-ciphertext_at n own text ad =
      length-aead_encrypt lib laws (key_at qt lib base n) (nonce_at qt lib base n) text (own ++ ad)
        (length-key_at n) (length-nonce_at n)

  key_at-full : (n : ℕ) → is_empty (key_at qt lib base n) ≡ false
  key_at-full n = is_empty-false (key_at qt lib base n) (omega (arith, length-key_at n))

  ciphertext_at-full :
      (n : ℕ) (own text ad : Bytes)
      → is_empty (message_at qt lib base n own text ad).ciphertext ≡ false
  ciphertext_at-full n own text ad =
      is_empty-false (message_at qt lib base n own text ad).ciphertext
        (omega (arith, length-ciphertext_at n own text ad))

  suc_int-pos : (n : ℕ) → n + 1 < int_limit → suc_int (pos n) ≡ pos (suc n)
  suc_int-pos n h = ground arith

  -- A session that has sent n messages sends message n, and is one place further.
  pub encrypt-message_at :
      (n : ℕ) (s : DoubleRatchetSession) (text ad : Bytes)
      → SendsAt qt lib base n s
      → n + 1 < int_limit
      → encrypt qt lib s text ad ≡ (
        some (serialize (message_at qt lib base n s.associated_data text ad)),
        record s { send_chain_key = chain_at qt lib base (suc n); send_counter = pos (suc n) },
      )
  unfolding encrypt
  encrypt-message_at n s text ad at h =
      rw
        (
          at.counter,
          at.chain,
          key_at-full n,
          ciphertext_at-full n s.associated_data text ad,
          suc_int-pos n h,
        )
        refl

  -- The session at place n of the receiving chain.
  abbrev pub reached : DoubleRatchetSession → ℕ → DoubleRatchetSession
  reached s n = record s { receive_chain_key = chain_at qt lib base n; receive_counter = pos n }

  catch_up-reached :
      (k n m : ℕ) (s : DoubleRatchetSession)
      → ReceivesAt qt lib base n s
      → n + k ≡ m
      → m < int_limit
      → catch_up qt lib k (pos m) s ≡ reached s m
  unfolding catch_up
  catch_up-reached zero n m s at e h =
      let same : n ≡ m = omega arith in cc (at.counter, at.chain, same)
  catch_up-reached (suc k) n m s at e h =
      let next =
        catch_up-reached k (suc n) m (reached s (suc n)) (record { counter = refl; chain = refl })
          (omega arith) h in
      rw (at.counter, at.chain, suc_int-pos n (omega arith), lt→ltb n m (omega arith)) next

  -- The loop of `decrypt` brings the session to the place that a message names, if that is not
  -- behind it.
  pub decrypt-reached :
      (b n : ℕ) (s : DoubleRatchetSession) (m : RatchetMessage) (bytes ad : Bytes)
      → ReceivesAt qt lib base b s
      → deserialize bytes ≡ some m
      → m.counter ≡ pos n
      → b ≤ n
      → n < int_limit
      → decrypt qt lib s bytes ad ≡ open_message qt lib (reached s n) m ad
  unfolding decrypt
  decrypt-reached b n s m bytes ad at e c h k =
      let loop = catch_up-reached (n - b) b n s at (omega arith) k in
      rw (e, decrypt) (simp (c, at.counter, ltb-ge n b h, loop))

  pub deserialize-message_at :
      (n : ℕ) (own text ad : Bytes)
      → n < int_limit
      → deserialize (serialize (message_at qt lib base n own text ad))
        ≡ some (message_at qt lib base n own text ad)
  deserialize-message_at n own text ad h =
      deserialize-serialize (message_at qt lib base n own text ad) h (length-nonce_at n)
        (omega (arith, length-ciphertext_at n own text ad))

  -- A session that has received at most n messages opens message n, whatever was lost before it,
  -- and is one place further than the message.
  pub decrypt-message_at :
      (b n : ℕ) (s : DoubleRatchetSession) (text ad : Bytes)
      → ReceivesAt qt lib base b s
      → b ≤ n
      → n + 1 < int_limit
      → decrypt qt lib s (serialize (message_at qt lib base n s.associated_data text ad)) ad
        ≡ (some text, reached s (suc n))
  unfolding open_message
  decrypt-message_at b n s text ad at h k =
      let m = message_at qt lib base n s.associated_data text ad in
      let opened =
        aead_decrypt-encrypt lib laws (key_at qt lib base n) (nonce_at qt lib base n) text
          (s.associated_data ++ ad) (length-key_at n) (length-nonce_at n) in
      decrypt-reached b n s m (serialize m) ad at
        (deserialize-message_at n s.associated_data text ad (omega arith)) refl h (omega arith)
      ∙ rw (opened, open_message) (rw (suc_int-pos n k))

module _ (qt : Qt) (lib : Sodium) where
  -- A message of a place that the session has passed is refused, and the session stays as it is.
  pub decrypt_behind :
      (b n : ℕ) (s : DoubleRatchetSession) (m : RatchetMessage) (bytes ad : Bytes)
      → s.receive_counter ≡ pos b
      → deserialize bytes ≡ some m
      → m.counter ≡ pos n
      → n < b
      → decrypt qt lib s bytes ad ≡ (none, s)
  unfolding decrypt
  decrypt_behind b n s m bytes ad at e c h = rw (e, decrypt) (simp (c, at, lt→ltb n b h))
