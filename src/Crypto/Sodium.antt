-- ===== src/Crypto/Sodium.antt =====
-- libsodium, as src/crypto calls it: the functions are a parameter of the model, and what its
-- documentation says of them is the record `SodiumLaws`. The sizes are those of
-- src/crypto/CryptoSizes.hpp and of the constants that the sources name.
use vox_desktop.Base.{ℕ, ◌+◌, ◌≡◌, Bool, true, Option, some, Bytes, length}

-- `none` is a return code other than 0.
pub record Sodium : Type 0 where
  pub init_ok : Bool
  pub hash_sha256 : Bytes → Bytes
  pub auth_hmacsha256 : Bytes → Bytes → Bytes
  pub aead_encrypt : Bytes → Bytes → Bytes → Bytes → Option Bytes
  pub aead_decrypt : Bytes → Bytes → Bytes → Bytes → Option Bytes
  pub xaead_encrypt : Bytes → Bytes → Bytes → Bytes → Option Bytes
  pub xaead_decrypt : Bytes → Bytes → Bytes → Bytes → Option Bytes
  pub scalarmult : Bytes → Bytes → Option Bytes
  pub sign_detached : Bytes → Bytes → Option Bytes
  pub sign_verify_detached : Bytes → Bytes → Bytes → Bool
  pub pwhash : ℕ → Bytes → Bytes → ℕ → ℕ → Option Bytes

abbrev pub chacha20_key_bytes : ℕ
chacha20_key_bytes = 32

abbrev pub chacha20_nonce_bytes : ℕ
chacha20_nonce_bytes = 12

abbrev pub chacha20_tag_bytes : ℕ
chacha20_tag_bytes = 16

abbrev pub xchacha20_nonce_bytes : ℕ
xchacha20_nonce_bytes = 24

abbrev pub sha256_bytes : ℕ
sha256_bytes = 32

abbrev pub pwhash_salt_bytes : ℕ
pwhash_salt_bytes = 16

abbrev pub scalarmult_bytes : ℕ
scalarmult_bytes = 32

abbrev pub sign_public_key_bytes : ℕ
sign_public_key_bytes = 32

abbrev pub sign_secret_key_bytes : ℕ
sign_secret_key_bytes = 64

abbrev pub sign_bytes : ℕ
sign_bytes = 64

-- The arguments of the two AEADs are the key, the nonce, the text and the associated data.
pub record SodiumLaws (lib : Sodium) : Type 0 where
  pub ready : lib.init_ok ≡ true
  pub sha256_size : (m : Bytes) → length (lib.hash_sha256 m) ≡ 32
  pub hmac_size : (k m : Bytes) → length (lib.auth_hmacsha256 k m) ≡ 32
  pub aead_total : (k n p ad : Bytes) → (c : Bytes) × (lib.aead_encrypt k n p ad ≡ some c)
  pub aead_size :
      (k n p ad c : Bytes) → lib.aead_encrypt k n p ad ≡ some c → length c ≡ length p + 16
  pub aead_opens :
      (k n p ad c : Bytes) → lib.aead_encrypt k n p ad ≡ some c → lib.aead_decrypt k n c ad ≡ some p
  pub xaead_total : (k n p ad : Bytes) → (c : Bytes) × (lib.xaead_encrypt k n p ad ≡ some c)
  pub xaead_size :
      (k n p ad c : Bytes) → lib.xaead_encrypt k n p ad ≡ some c → length c ≡ length p + 16
  pub xaead_opens :
      (k n p ad c : Bytes)
      → lib.xaead_encrypt k n p ad ≡ some c
      → lib.xaead_decrypt k n c ad ≡ some p
  pub scalarmult_size : (n p q : Bytes) → lib.scalarmult n p ≡ some q → length q ≡ 32
  pub pwhash_size :
      (size : ℕ) (pw salt : Bytes) (ops mem : ℕ) (out : Bytes)
      → lib.pwhash size pw salt ops mem ≡ some out
      → length out ≡ size

-- What `randombytes_buf` writes into a buffer of a size, one such function to a call.
abbrev pub Draw : Type 0
Draw = ℕ → Bytes

abbrev pub IsDraw : Draw → Type 0
IsDraw draw = (size : ℕ) → length (draw size) ≡ size
