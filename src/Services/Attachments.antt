-- ===== src/Services/Attachments.antt =====
-- src/services/AttachmentService.cpp: ciphertexts on the server, with a copy in the file store.
pub mod Copies
use Prim.Native.String.{◌++◌ as append_text}
use vox_desktop.Base.{
  ℕ, ◌+◌, ◌-◌, ◌/◌, ◌%◌, String, Bool, not, ◌||◌, Bytes, codes, length, is_empty, Option, none,
  some, [], ◌∷◌, ltb, text_is_empty, if◌then◌else◌,
}
use vox_desktop.Qt.{Qt}
use vox_desktop.Network.{
  AttachmentsApi, AttachmentUploadInitRequest, AttachmentUploadInitResponse, ApiResult,
}
use vox_desktop.Crypto.Sodium.{Sodium}
use vox_desktop.Crypto.Helpers.{sha256}
use vox_desktop.Crypto.Vault.{Disk}
use vox_desktop.Storage.FileStore.{FileStore, write_encrypted_attachment, read_encrypted_attachment}

-- QByteArray::toHex, with the letters small.
abbrev pub hex_digit : ℕ → ℕ
hex_digit n = if ltb n 10 then b'0' + n else b'a' + n - 10

unfoldable pub to_hex : Bytes → Bytes
to_hex [] = []
to_hex (b ∷ bs) = hex_digit (b / 16) ∷ hex_digit (b % 16) ∷ to_hex bs

module _ (qt : Qt) (lib : Sodium) where
  unfoldable pub attachment_hash : Bytes → String
  attachment_hash ciphertext = append_text "sha256:" (qt.from_utf8 (to_hex (sha256 lib ciphertext)))

  -- What follows a successful `uploadInit`.
  unfoldable pub upload_to :
      AttachmentsApi → Disk → String → Bytes → FileStore → Option String × FileStore
  upload_to api disk id ciphertext s =
      let (written, s') = write_encrypted_attachment disk id ciphertext s in
      if not (api.upload_chunk id 0 ciphertext).ok
      then (none, s)
      else if not (api.finalize id (attachment_hash ciphertext)).ok
      then (none, s)
      else if not written
      then (none, s')
      else (some id, s')

  unfoldable pub upload_encrypted :
      AttachmentsApi → Disk → String → Bytes → String → FileStore → Option String × FileStore
  upload_encrypted api disk conversation_id ciphertext mime_hint s =
      let request : AttachmentUploadInitRequest = record {
        conversation_id = conversation_id;
        file_size = length ciphertext;
        mime_hint = mime_hint;
      } in
      let init = api.upload_init request in
      if text_is_empty conversation_id || is_empty ciphertext || not init.ok
      then (none, s)
      else elim init.payload [
        | none ↦ (none, s)
        | some response ↦ upload_to api disk response.attachment_id ciphertext s
      ]

  -- What follows when the file store has no copy.
  unfoldable pub fetch : AttachmentsApi → Disk → String → FileStore → Option Bytes × FileStore
  fetch api disk id s =
      let downloaded = api.download id in
      elim downloaded.payload [
        | none ↦ (none, s)
        | some bytes ↦
            let (written, s') = write_encrypted_attachment disk id bytes s in
            if not downloaded.ok
            then (none, s)
            else if not written
            then (none, s')
            else (some bytes, s')
      ]

  unfoldable pub download_encrypted :
      AttachmentsApi → Disk → String → FileStore → Option Bytes × FileStore
  download_encrypted api disk id s = elim (read_encrypted_attachment disk id s) [
    | some local ↦ (some local, s)
    | none ↦ fetch api disk id s
  ]
