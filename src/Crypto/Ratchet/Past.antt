-- ===== src/Crypto/Ratchet/Past.antt =====
-- The receiving counter of a session of src/crypto/DoubleRatchetSession.cpp over later calls.
use vox_desktop.Base.{
  ℕ, zero, suc, ◌+◌, ◌-◌, ◌<◌, ◌≡◌, ◌∙◌, refl, sym, ap, subst, Bool, true, false, Bool-cases,
  Option-cases, inl, inr, Option, none, some, Bytes, List, [], ◌∷◌, ◌++◌, ltb, if◌then◌else◌, arith,
}
use vox_desktop.Base.Int.{ℤ, pos, negsuc, int_limit, ltb_int, suc_int}
use vox_desktop.Network.Parsing.RoundTrip.{Each}
use vox_desktop.Qt.{Qt}
use vox_desktop.Crypto.Sodium.{Sodium}
use vox_desktop.Crypto.Helpers.{aead_decrypt}
use vox_desktop.Crypto.Ratchet.{
  RatchetMessage, DoubleRatchetSession, next_message_key, advance_chain, encrypt, decrypt, catch_up,
  rounds, open_message, deserialize,
}

-- A call on a session: a text to encrypt or bytes to decrypt, with the associated data.
pub data Call : Type 0 where
  encrypting : Bytes → Bytes → Call
  decrypting : Bytes → Bytes → Call

-- A counter after which `int` does not overflow.
abbrev is_below_limit : Option RatchetMessage → Bool
is_below_limit none = true
is_below_limit (some m) = ltb_int m.counter (pos (int_limit - 1))

abbrev pub IsBelowLimit : Call → Type 0
IsBelowLimit (encrypting text ad) = Unit
IsBelowLimit (decrypting bytes ad) = is_below_limit (deserialize bytes) ≡ true

-- The session has received past a counter.
abbrev pub IsPast : ℕ → DoubleRatchetSession → Type 0
IsPast n s = (c : ℕ) × (s.receive_counter ≡ pos c) × (n < c)

module _ (qt : Qt) (lib : Sodium) where
  abbrev pub after_call : DoubleRatchetSession → Call → DoubleRatchetSession
  after_call s (encrypting text ad) = (encrypt qt lib s text ad).1
  after_call s (decrypting bytes ad) = (decrypt qt lib s bytes ad).1

  pub after_calls : DoubleRatchetSession → List Call → DoubleRatchetSession
  after_calls s [] = s
  after_calls s (call ∷ calls) = after_calls (after_call s call) calls

  catch_up-IsPast :
      (n k fuel : ℕ) (s : DoubleRatchetSession)
      → k < int_limit
      → IsPast n s
      → IsPast n (catch_up qt lib fuel (pos k) s)
  unfolding catch_up advance_chain
  catch_up-IsPast n k zero s h p = p
  catch_up-IsPast n k (suc fuel) s h (c, is, past) = elim (Bool-cases (ltb c k)) [
    | inr there ↦ rw (is, there) (c, refl, past)
    | inl behind ↦
        let next : suc_int (pos c) ≡ pos (c + 1) = ground arith in
        let advanced = advance_chain qt lib s false s.receive_counter in
        let moved : DoubleRatchetSession = record advanced {
          receive_counter = suc_int s.receive_counter;
        } in
        let rest =
          catch_up-IsPast n k fuel moved h (c + 1, ap suc_int is ∙ next, omega (arith, past)) in
        let step : ltb_int s.receive_counter (pos k) ≡ true = rw is behind in
        subst (λ (b : Bool). IsPast n (if b then catch_up qt lib fuel (pos k) moved else s))
          (sym step) rest
  ]

  open_message-IsPast :
      (n k : ℕ) (s : DoubleRatchetSession) (m : RatchetMessage) (ad : Bytes)
      → m.counter ≡ pos k
      → k + 1 < int_limit
      → n < k + 1
      → IsPast n s
      → IsPast n (open_message qt lib s m ad).1
  unfolding open_message next_message_key
  open_message-IsPast n k s m ad c h later p =
      elim (Option-cases (
        aead_decrypt lib (next_message_key qt lib s false m.counter) m.nonce m.ciphertext
          (s.associated_data ++ ad))) [
            | inl refused ↦ rw (refused, open_message) p
            | inr (text, opened) ↦
                rw (opened, open_message) (k + 1, ap suc_int c ∙ ground arith, later)
          ]

  -- `decrypt` of a message that was read.
  abbrev received : DoubleRatchetSession → RatchetMessage → Bytes → DoubleRatchetSession
  received s m ad =
      (if ltb_int m.counter s.receive_counter
        then (none, s)
        else open_message qt lib
            (catch_up qt lib (rounds qt lib s.receive_counter m.counter) m.counter s) m ad).1

  received-IsPast :
      (n : ℕ) (s : DoubleRatchetSession) (m : RatchetMessage) (ad : Bytes) (k : ℤ)
      → m.counter ≡ k
      → ltb_int k (pos (int_limit - 1)) ≡ true
      → IsPast n s
      → IsPast n (received s m ad)
  received-IsPast n s m ad (negsuc k) e below (c, is, past) =
      let behind : ltb_int m.counter s.receive_counter ≡ true = rw (e, is) refl in
      rw (behind, received) (c, is, past)
  received-IsPast n s m ad (pos k) e below (c, is, past) = elim (Bool-cases (ltb k c)) [
    | inl earlier ↦
        let behind : ltb_int m.counter s.receive_counter ≡ true = rw (e, is) earlier in
        rw (behind, received) (c, is, past)
    | inr later ↦
        let reached : ltb_int m.counter s.receive_counter ≡ false = rw (e, is) later in
        let fuel = rounds qt lib s.receive_counter m.counter in
        rw (reached, received)
          (open_message-IsPast n k (catch_up qt lib fuel m.counter s) m ad e (ground arith)
            (ground arith)
            (subst (λ (z : ℤ). IsPast n (catch_up qt lib fuel z s)) (sym e)
              (catch_up-IsPast n k fuel s (ground arith) (c, is, past))))
  ]

  decrypt-IsPast :
      (n : ℕ) (s : DoubleRatchetSession) (bytes ad : Bytes)
      → is_below_limit (deserialize bytes) ≡ true
      → IsPast n s
      → IsPast n (decrypt qt lib s bytes ad).1
  unfolding decrypt
  decrypt-IsPast n s bytes ad below p = elim (Option-cases (deserialize bytes)) [
    | inl unread ↦ rw (unread, decrypt) p
    | inr (m, found) ↦
        rw (found, decrypt) (received-IsPast n s m ad m.counter refl (rw found at below) p)
  ]

  encrypt-IsPast :
      (n : ℕ) (s : DoubleRatchetSession) (text ad : Bytes)
      → IsPast n s
      → IsPast n (encrypt qt lib s text ad).1
  unfolding encrypt advance_chain
  encrypt-IsPast n s text ad (c, is, past) = (c, ground arith, past)

  pub after_calls-IsPast :
      (n : ℕ) (s : DoubleRatchetSession) (calls : List Call)
      → IsPast n s
      → Each IsBelowLimit calls
      → IsPast n (after_calls s calls)
  unfolding after_calls
  after_calls-IsPast n s [] p below = p
  after_calls-IsPast n s (encrypting text ad ∷ calls) p (here, below) =
      after_calls-IsPast n (encrypt qt lib s text ad).1 calls (encrypt-IsPast n s text ad p) below
  after_calls-IsPast n s (decrypting bytes ad ∷ calls) p (here, below) =
      after_calls-IsPast n (decrypt qt lib s bytes ad).1 calls (decrypt-IsPast n s bytes ad here p)
        below

  -- A message that was decrypted is behind the session.
  pub decrypt-IsPast_own :
      (s s' : DoubleRatchetSession) (m : RatchetMessage) (bytes text ad : Bytes) (n : ℕ)
      → deserialize bytes ≡ some m
      → m.counter ≡ pos n
      → n + 1 < int_limit
      → decrypt qt lib s bytes ad ≡ (some text, s')
      → IsPast n s'
  unfolding decrypt open_message
  decrypt-IsPast_own s s' m bytes text ad n e c h d = (n + 1, ground arith, omega arith)

  pub decrypt_past :
      (n : ℕ) (s : DoubleRatchetSession) (m : RatchetMessage) (bytes ad : Bytes)
      → deserialize bytes ≡ some m
      → m.counter ≡ pos n
      → IsPast n s
      → decrypt qt lib s bytes ad ≡ (none, s)
  unfolding decrypt
  decrypt_past n s m bytes ad e c (k, is, past) = ground arith
