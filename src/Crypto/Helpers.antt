-- ===== src/Crypto/Helpers.antt =====
-- src/crypto/CryptoHelpers.cpp and SodiumInit.cpp: the checked wrappers of libsodium. A failure is
-- an empty byte array, or `nullopt` for the two that decrypt.
pub mod Guards
use vox_desktop.Base.{
  ℕ, Bool, false, not, ◌||◌, Option, none, Bytes, length, [], is_empty, value_or, ltb, leb, nat_beq,
  if◌then◌else◌,
}
use vox_desktop.Base.Int.{ℤ, pos, negsuc}
use vox_desktop.Crypto.Sodium.{
  Sodium, Draw, chacha20_key_bytes, chacha20_nonce_bytes, chacha20_tag_bytes, xchacha20_nonce_bytes,
  pwhash_salt_bytes, scalarmult_bytes, sign_secret_key_bytes, sign_public_key_bytes, sign_bytes,
}

unfoldable pub check_len : Bytes → ℕ → Bool
check_len view expected = nat_beq (length view) expected

module _ (lib : Sodium) where
  abbrev pub ensure_sodium_initialized : Bool
  ensure_sodium_initialized = lib.init_ok

  unfoldable pub random_bytes : Draw → ℤ → Bytes
  random_bytes draw (negsuc size) = []
  random_bytes draw (pos size) =
      if leb size 0 || not ensure_sodium_initialized then [] else draw size

  unfoldable pub sha256 : Bytes → Bytes
  sha256 input = if not ensure_sodium_initialized then [] else lib.hash_sha256 input

  unfoldable pub hmac_sha256 : Bytes → Bytes → Bytes
  hmac_sha256 key input =
      if not ensure_sodium_initialized || is_empty key then [] else lib.auth_hmacsha256 key input

  unfoldable pub aead_encrypt : Bytes → Bytes → Bytes → Bytes → Bytes
  unfolding check_len
  aead_encrypt key nonce12 plaintext ad =
      if not ensure_sodium_initialized
        || not (check_len key chacha20_key_bytes)
        || not (check_len nonce12 chacha20_nonce_bytes)
      then []
      else value_or (lib.aead_encrypt key nonce12 plaintext ad) []

  unfoldable pub aead_decrypt : Bytes → Bytes → Bytes → Bytes → Option Bytes
  unfolding check_len
  aead_decrypt key nonce12 ciphertext ad =
      if not ensure_sodium_initialized
        || not (check_len key chacha20_key_bytes)
        || not (check_len nonce12 chacha20_nonce_bytes)
        || ltb (length ciphertext) chacha20_tag_bytes
      then none
      else lib.aead_decrypt key nonce12 ciphertext ad

  unfoldable pub xchacha_encrypt_local : Bytes → Bytes → Bytes → Bytes → Bytes
  unfolding check_len
  xchacha_encrypt_local key nonce24 plaintext ad =
      if not ensure_sodium_initialized
        || not (check_len key chacha20_key_bytes)
        || not (check_len nonce24 xchacha20_nonce_bytes)
      then []
      else value_or (lib.xaead_encrypt key nonce24 plaintext ad) []

  unfoldable pub xchacha_decrypt_local : Bytes → Bytes → Bytes → Bytes → Option Bytes
  unfolding check_len
  xchacha_decrypt_local key nonce24 ciphertext ad =
      if not ensure_sodium_initialized
        || not (check_len key chacha20_key_bytes)
        || not (check_len nonce24 xchacha20_nonce_bytes)
        || ltb (length ciphertext) chacha20_tag_bytes
      then none
      else lib.xaead_decrypt key nonce24 ciphertext ad

  unfoldable pub x25519 : Bytes → Bytes → Bytes
  unfolding check_len
  x25519 priv32 pub32 =
      if not ensure_sodium_initialized
        || not (check_len priv32 scalarmult_bytes)
        || not (check_len pub32 scalarmult_bytes)
      then []
      else value_or (lib.scalarmult priv32 pub32) []

  unfoldable pub ed25519_sign : Bytes → Bytes → Bytes
  ed25519_sign priv msg =
      if not ensure_sodium_initialized || not (nat_beq (length priv) sign_secret_key_bytes)
      then []
      else value_or (lib.sign_detached priv msg) []

  unfoldable pub ed25519_verify : Bytes → Bytes → Bytes → Bool
  ed25519_verify public_key msg sig =
      if not ensure_sodium_initialized
        || not (nat_beq (length public_key) sign_public_key_bytes)
        || not (nat_beq (length sig) sign_bytes)
      then false
      else lib.sign_verify_detached sig msg public_key

  unfoldable pub argon2id_kdf : Bytes → Bytes → ℕ → ℕ → ℕ → Bytes
  argon2id_kdf password salt opslimit memlimit out_len =
      if not ensure_sodium_initialized
        || nat_beq out_len 0
        || not (nat_beq (length salt) pwhash_salt_bytes)
        || is_empty password
      then []
      else value_or (lib.pwhash out_len password salt opslimit memlimit) []
