-- ===== src/Crypto/X3dh/Agreement.antt =====
-- src/crypto/X3dhSessionBuilder.cpp against the responder's side of X3DH, which the repository has
-- no code for: the same Diffie-Hellman values, taken from the other private keys.
use vox_desktop.Base.{
  ◌≡◌, refl, Option, none, some, Bytes, codes, length, [], ◌∷◌, append-nil, ◌++◌, is_empty,
  is_empty-false, false, arith,
}
use vox_desktop.Base.Int.{pos}
use vox_desktop.Crypto.Sodium.{Sodium, SodiumLaws}
use vox_desktop.Crypto.Helpers.{x25519}
use vox_desktop.Crypto.Hkdf.{hkdf_sha256}
use vox_desktop.Crypto.Hkdf.Rfc5869.{length-hkdf_sha256}
use vox_desktop.Crypto.X3dh.{X3dhInput, root_key_of, build_initial_shared_secret}

-- Key agreement: `public_key` makes the public key of a private one, and the secret of two
-- generated pairs is the same from both sides.
pub record IsKeyAgreement (lib : Sodium) : Type 0 where
  pub public_key : Bytes → Bytes
  pub secret : Bytes → Bytes → Bytes
  pub public_key_size : (a : Bytes) → length a ≡ 32 → length (public_key a) ≡ 32
  pub computes :
      (a b : Bytes)
      → length a ≡ 32
      → length b ≡ 32
      → lib.scalarmult a (public_key b) ≡ some (secret a b)
  pub commutes : (a b : Bytes) → secret a b ≡ secret b a

-- The private keys of both sides; the last is the responder's one-time prekey, if one was used.
pub record X3dhKeys : Type 0 where
  pub identity_a : Bytes
  pub ephemeral_a : Bytes
  pub identity_b : Bytes
  pub signed_prekey_b : Bytes
  pub one_time_b : Option Bytes

abbrev OneTimeSize : Option Bytes → Type 0
OneTimeSize none = Unit {0}
OneTimeSize (some key) = length key ≡ 32

pub record HasKeySizes (k : X3dhKeys) : Type 0 where
  pub identity_a_size : length k.identity_a ≡ 32
  pub ephemeral_a_size : length k.ephemeral_a ≡ 32
  pub identity_b_size : length k.identity_b ≡ 32
  pub signed_prekey_b_size : length k.signed_prekey_b ≡ 32
  pub one_time_b_size : OneTimeSize k.one_time_b

module _ (lib : Sodium) (dh : IsKeyAgreement lib) where
  abbrev public_keys : Option Bytes → Option Bytes
  public_keys none = none
  public_keys (some key) = some (dh.public_key key)

  -- What the initiator is given: its private keys and the responder's public ones.
  abbrev pub initiator_input : X3dhKeys → X3dhInput
  initiator_input k = record {
    our_identity_private = k.identity_a;
    our_ephemeral_private = k.ephemeral_a;
    their_identity_public = dh.public_key k.identity_b;
    their_signed_prekey_public = dh.public_key k.signed_prekey_b;
    their_one_time_prekey_public = public_keys k.one_time_b;
  }

  -- The responder's key material: every value from one of its own private keys.
  abbrev pub responder_material : X3dhKeys → Bytes
  responder_material k =
      dh.secret k.signed_prekey_b k.identity_a
      ++ (dh.secret k.identity_b k.ephemeral_a
          ++ (dh.secret k.signed_prekey_b k.ephemeral_a
              ++ elim k.one_time_b [ none ↦ [] | some key ↦ dh.secret key k.ephemeral_a ]))

module _ (lib : Sodium) (laws : SodiumLaws lib) (dh : IsKeyAgreement lib) where
  length-secret : (a b : Bytes) → length a ≡ 32 → length b ≡ 32 → length (dh.secret a b) ≡ 32
  length-secret a b ha hb =
      laws.scalarmult_size a (dh.public_key b) (dh.secret a b) (dh.computes a b ha hb)

  x25519-eq-secret :
      (a b : Bytes)
      → length a ≡ 32
      → length b ≡ 32
      → (x25519 lib a (dh.public_key b) ≡ dh.secret b a) × (is_empty (dh.secret b a) ≡ false)
  unfolding x25519
  x25519-eq-secret a b ha hb = (
    ground (arith, laws.ready, dh.public_key_size b hb, dh.computes a b ha hb, dh.commutes a b),
    is_empty-false (dh.secret b a) (omega (arith, length-secret b a hb ha)),
  )

  root_key_of-eq-hkdf :
      (ikm : Bytes)
      → is_empty ikm ≡ false
      → root_key_of lib ikm
        ≡ some (hkdf_sha256 lib ikm (codes "vox-x3dh-salt") (codes "vox-e2ee-v1/x3dh") (pos 32))
  unfolding root_key_of
  root_key_of-eq-hkdf ikm h = ground (
    arith,
    length-hkdf_sha256 lib laws ikm (codes "vox-x3dh-salt") (codes "vox-e2ee-v1/x3dh") 32 h
        (omega arith) (omega arith),
  )

  material-full : (a b : Bytes) → is_empty a ≡ false → is_empty (a ++ b) ≡ false
  material-full [] b h = cc
  material-full (x ∷ a) b h = refl

  agreement :
      (ia ea ib sb : Bytes) (ot : Option Bytes)
      → length ia ≡ 32
      → length ea ≡ 32
      → length ib ≡ 32
      → length sb ≡ 32
      → OneTimeSize ot
      → let keys : X3dhKeys = record {
        identity_a = ia;
        ephemeral_a = ea;
        identity_b = ib;
        signed_prekey_b = sb;
        one_time_b = ot;
      } in
        build_initial_shared_secret lib (initiator_input lib dh keys)
        ≡ some (
            hkdf_sha256 lib
              (responder_material lib dh keys)
              (codes "vox-x3dh-salt")
              (codes "vox-e2ee-v1/x3dh")
              (pos 32))
  unfolding build_initial_shared_secret
  agreement ia ea ib sb none hia hea hib hsb hot =
      let (e1, f1) = x25519-eq-secret ia sb hia hsb in
      let (e2, f2) = x25519-eq-secret ea ib hea hib in
      let (e3, f3) = x25519-eq-secret ea sb hea hsb in
      rw (e1, e2, e3, f1, f2, f3, append-nil (dh.secret sb ea))
        (root_key_of-eq-hkdf _ (material-full (dh.secret sb ia) _ f1))
  agreement ia ea ib sb (some ob) hia hea hib hsb hot =
      let (e1, f1) = x25519-eq-secret ia sb hia hsb in
      let (e2, f2) = x25519-eq-secret ea ib hea hib in
      let (e3, f3) = x25519-eq-secret ea sb hea hsb in
      let (e4, f4) = x25519-eq-secret ea ob hea hot in
      rw (e1, e2, e3, e4, f1, f2, f3, f4)
        (root_key_of-eq-hkdf _ (material-full (dh.secret sb ia) _ f1))

  -- Where libsodium keeps its laws and Curve25519 agrees from both sides: for private keys of 32
  -- bytes the initiator's secret is there, and is the HKDF of the key material that the responder
  -- computes from its own private keys, with and without a one-time prekey.
  pub build_initial_shared_secret_lem :
      (keys : X3dhKeys)
      → HasKeySizes keys
      → build_initial_shared_secret lib (initiator_input lib dh keys)
        ≡ some (
            hkdf_sha256 lib
              (responder_material lib dh keys)
              (codes "vox-x3dh-salt")
              (codes "vox-e2ee-v1/x3dh")
              (pos 32))
  build_initial_shared_secret_lem keys h =
      agreement keys.identity_a keys.ephemeral_a keys.identity_b keys.signed_prekey_b
        keys.one_time_b h.identity_a_size h.ephemeral_a_size h.identity_b_size
        h.signed_prekey_b_size h.one_time_b_size
