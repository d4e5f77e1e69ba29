-- ===== src/Crypto/Helpers/Guards.antt =====
-- src/crypto/CryptoHelpers.cpp: what the wrappers return where their guards let a call through.
use vox_desktop.Base.{ℕ, ◌+◌, ◌<◌, ◌≡◌, false, some, Bytes, length, is_empty, arith}
use vox_desktop.Base.Int.{pos}
use vox_desktop.Crypto.Sodium.{Sodium, SodiumLaws, Draw, IsDraw}
use vox_desktop.Crypto.Helpers.{
  random_bytes, hmac_sha256, aead_encrypt, aead_decrypt, xchacha_encrypt_local,
  xchacha_decrypt_local,
}

module _ (lib : Sodium) (laws : SodiumLaws lib) where
  pub random_bytes-eq : (draw : Draw) (n : ℕ) → 0 < n → random_bytes lib draw (pos n) ≡ draw n
  unfolding random_bytes
  random_bytes-eq draw n h = ground (arith, laws.ready)

  pub length-random_bytes :
      (draw : Draw) (n : ℕ) → IsDraw draw → 0 < n → length (random_bytes lib draw (pos n)) ≡ n
  unfolding random_bytes
  length-random_bytes draw n d h = ground (arith, laws.ready, d n)

  pub hmac_sha256-eq :
      (key m : Bytes) → is_empty key ≡ false → hmac_sha256 lib key m ≡ lib.auth_hmacsha256 key m
  unfolding hmac_sha256
  hmac_sha256-eq key m h = ground (arith, laws.ready)

  pub length-hmac_sha256 :
      (key m : Bytes) → is_empty key ≡ false → length (hmac_sha256 lib key m) ≡ 32
  length-hmac_sha256 key m h = rw (hmac_sha256-eq key m h) (laws.hmac_size key m)

  pub length-aead_encrypt :
      (key nonce p ad : Bytes)
      → length key ≡ 32
      → length nonce ≡ 12
      → length (aead_encrypt lib key nonce p ad) ≡ length p + 16
  unfolding aead_encrypt
  length-aead_encrypt key nonce p ad hk hn =
      let (c, e) = laws.aead_total key nonce p ad in
      ground (arith, laws.ready, e, laws.aead_size key nonce p ad c)

  pub aead_decrypt-encrypt :
      (key nonce p ad : Bytes)
      → length key ≡ 32
      → length nonce ≡ 12
      → aead_decrypt lib key nonce (aead_encrypt lib key nonce p ad) ad ≡ some p
  unfolding aead_encrypt aead_decrypt
  aead_decrypt-encrypt key nonce p ad hk hn =
      let (c, e) = laws.aead_total key nonce p ad in
      ground
        (arith, laws.ready, e, laws.aead_size key nonce p ad c, laws.aead_opens key nonce p ad c)

  pub length-xchacha_encrypt_local :
      (key nonce p ad : Bytes)
      → length key ≡ 32
      → length nonce ≡ 24
      → length (xchacha_encrypt_local lib key nonce p ad) ≡ length p + 16
  unfolding xchacha_encrypt_local
  length-xchacha_encrypt_local key nonce p ad hk hn =
      let (c, e) = laws.xaead_total key nonce p ad in
      ground (arith, laws.ready, e, laws.xaead_size key nonce p ad c)

  pub xchacha_decrypt_local-encrypt :
      (key nonce p ad : Bytes)
      → length key ≡ 32
      → length nonce ≡ 24
      → xchacha_decrypt_local lib key nonce (xchacha_encrypt_local lib key nonce p ad) ad ≡ some p
  unfolding xchacha_encrypt_local xchacha_decrypt_local
  xchacha_decrypt_local-encrypt key nonce p ad hk hn =
      let (c, e) = laws.xaead_total key nonce p ad in
      ground
        (arith, laws.ready, e, laws.xaead_size key nonce p ad c, laws.xaead_opens key nonce p ad c)
