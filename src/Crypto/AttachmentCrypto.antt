-- ===== src/Crypto/AttachmentCrypto.antt =====
-- src/crypto/AttachmentCrypto.cpp: a chunk of an attachment, encrypted and hashed.
pub mod RoundTrip
use vox_desktop.Base.{
  Bool, true, false, not, Option, none, some, Bytes, length, is_empty, nat_beq, if◌then◌else◌,
}
use vox_desktop.Base.Int.{pos}
use vox_desktop.Crypto.Sodium.{Sodium, Draw, chacha20_key_bytes, chacha20_nonce_bytes}
use vox_desktop.Crypto.Helpers.{random_bytes, aead_encrypt, aead_decrypt, sha256}

pub record EncryptedAttachmentChunk : Type 0 where
  pub nonce : Bytes
  pub ciphertext : Bytes
  pub sha256 : Bytes

module _ (lib : Sodium) where
  unfoldable pub encrypt_chunk : Draw → Bytes → Bytes → Bytes → Option EncryptedAttachmentChunk
  encrypt_chunk draw key32 plaintext ad =
      let nonce = random_bytes lib draw (pos chacha20_nonce_bytes) in
      let ciphertext = aead_encrypt lib key32 nonce plaintext ad in
      let chunk : EncryptedAttachmentChunk = record {
        nonce = nonce;
        ciphertext = ciphertext;
        sha256 = sha256 lib ciphertext;
      } in
      if not (nat_beq (length key32) chacha20_key_bytes)
      then none
      else if not (nat_beq (length nonce) chacha20_nonce_bytes)
      then none
      else if is_empty ciphertext
      then none
      else some chunk

  unfoldable pub decrypt_chunk : Bytes → Bytes → Bytes → Bytes → Option Bytes
  decrypt_chunk key32 nonce ciphertext ad = aead_decrypt lib key32 nonce ciphertext ad
