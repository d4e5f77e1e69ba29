-- ===== src/Crypto/AttachmentCrypto/RoundTrip.antt =====
-- src/crypto/AttachmentCrypto.cpp: a chunk comes back under its key, and its hash is that of the
-- ciphertext.
use vox_desktop.Base.{◌+◌, ◌≡◌, refl, some, Bytes, length, is_empty-false, arith}
use vox_desktop.Crypto.Sodium.{Sodium, SodiumLaws, Draw, IsDraw}
use vox_desktop.Crypto.Helpers.{random_bytes, aead_encrypt, sha256}
use vox_desktop.Crypto.Helpers.Guards.{length-aead_encrypt, aead_decrypt-encrypt}
use vox_desktop.Crypto.AttachmentCrypto.{EncryptedAttachmentChunk, encrypt_chunk, decrypt_chunk}

module _ (lib : Sodium) (laws : SodiumLaws lib) where
  -- Where libsodium keeps its laws: with a 32-byte key every chunk is encrypted, its ciphertext is
  -- 16 bytes longer than the text, its hash is the SHA-256 of the ciphertext, and it decrypts to
  -- the text under the same key and associated data.
  decrypt_chunk-encrypt_chunk :
      (draw : Draw) (key text ad : Bytes)
      → IsDraw draw
      → length key ≡ 32
      → (chunk : EncryptedAttachmentChunk) × (encrypt_chunk lib draw key text ad ≡ some chunk)
        × (length chunk.ciphertext ≡ length text + 16)
        × (chunk.sha256 ≡ lib.hash_sha256 chunk.ciphertext)
        × (decrypt_chunk lib key chunk.nonce chunk.ciphertext ad ≡ some text)
  unfolding encrypt_chunk decrypt_chunk random_bytes sha256
  decrypt_chunk-encrypt_chunk draw key text ad d k =
      let nonce = draw 12 in
      let ciphertext = aead_encrypt lib key nonce text ad in
      let size = length-aead_encrypt lib laws key nonce text ad k (d 12) in
      let opened = aead_decrypt-encrypt lib laws key nonce text ad k (d 12) in
      (
        record { nonce = nonce; ciphertext = ciphertext; sha256 = lib.hash_sha256 ciphertext },
        ground (arith, laws.ready, d 12, is_empty-false ciphertext, size),
        size,
        refl,
        opened,
      )
