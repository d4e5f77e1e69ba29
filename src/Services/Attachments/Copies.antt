-- ===== src/Services/Attachments/Copies.antt =====
-- src/services/AttachmentService.cpp: what was uploaded or downloaded once is read from the copy.
use Prim.Native.String.{◌++◌ as append_text}
use vox_desktop.Base.{
  ℕ, ◌+◌, ◌-◌, ◌*◌, [], ◌∷◌, ltb, if◌then◌else◌, ◌≡◌, ◌∙◌, refl, sym, ap, String, string_eq,
  ==-self, true, ◌&&◌, Bool-cases, Option-cases, inl, inr, Bytes, Option, none, some, arith,
}
use mathlib.Core.Option.{some-injective}
use vox_desktop.Base.Dict.{lookup-insert}
use vox_desktop.Qt.{Qt}
use vox_desktop.Network.{AttachmentsApi}
use vox_desktop.Crypto.Sodium.{Sodium}
use vox_desktop.Crypto.Vault.{Disk}
use vox_desktop.Storage.FileStore.{
  FileStore, encrypted_attachment_path, write_encrypted_attachment, read_encrypted_attachment,
}
use vox_desktop.Services.Attachments.{fetch, download_encrypted}

read-write :
    (disk next_disk : Disk) (id : String) (bytes : Bytes) (s : FileStore)
    → (write_encrypted_attachment disk id bytes s).0 ≡ true
    → next_disk.opens_read ≡ true
    → read_encrypted_attachment next_disk id (write_encrypted_attachment disk id bytes s).1
      ≡ some bytes
unfolding write_encrypted_attachment read_encrypted_attachment encrypted_attachment_path
read-write disk next_disk id bytes s h hr = elim (Bool-cases (disk.opens_write && disk.commits)) [
  | inl kept ↦
      let path = encrypted_attachment_path s id in
      rw (kept, hr) (lookup-insert s.files path path bytes ∙ rw (==-self path) refl)
  | inr lost ↦ absurd (ground arith)
]

read-again :
    (disk next_disk : Disk) (id : String) (bytes : Bytes) (s : FileStore)
    → read_encrypted_attachment disk id s ≡ some bytes
    → next_disk.opens_read ≡ true
    → read_encrypted_attachment next_disk id s ≡ some bytes
unfolding read_encrypted_attachment
read-again disk next_disk id bytes s h hr = ground arith

-- The number that a hexadecimal digit stands for; a large letter is none.
abbrev pub digit_value : ℕ → ℕ
digit_value d = if ltb d b'a' then d - b'0' else d - b'a' + 10

-- Two digits for each byte, the higher one first.
abbrev pub Spells : Bytes → Bytes → Type 0
Spells [] [] = Unit
Spells (high ∷ low ∷ digits) (b ∷ bytes) =
    (digit_value high * 16 + digit_value low ≡ b) × Spells digits bytes
Spells _ _ = ⊥

module _ (qt : Qt) (lib : Sodium) where
  download-read :
      (api : AttachmentsApi) (disk : Disk) (id : String) (bytes : Bytes) (s : FileStore)
      → read_encrypted_attachment disk id s ≡ some bytes
      → download_encrypted qt lib api disk id s ≡ (some bytes, s)
  unfolding download_encrypted
  download-read api disk id bytes s h = rw (h, download_encrypted) refl

  download-fetch :
      (api : AttachmentsApi) (disk : Disk) (id : String) (s : FileStore)
      → read_encrypted_attachment disk id s ≡ none
      → download_encrypted qt lib api disk id s ≡ fetch qt lib api disk id s
  unfolding download_encrypted
  download-fetch api disk id s h = rw (h, download_encrypted) refl

  fetch-some :
      (api : AttachmentsApi) (disk : Disk) (id : String) (bytes : Bytes) (s : FileStore)
      → (fetch qt lib api disk id s).0 ≡ some bytes
      → ((write_encrypted_attachment disk id bytes s).0 ≡ true)
        × ((fetch qt lib api disk id s).1 ≡ (write_encrypted_attachment disk id bytes s).1)
  unfolding fetch
  fetch-some api disk id bytes s h = elim (Option-cases (api.download id).payload) [
    | inl nothing ↦ absurd (ground arith)
    | inr (got, is) ↦
        let written : (write_encrypted_attachment disk id got s).0 ≡ true = ground arith in
        let ok : (api.download id).ok ≡ true = ground arith in
        let same : got ≡ bytes = some-injective _ _ (ground arith) in
        (rw (← same) written, rw (is, fetch, ok, written, same) refl)
  ]

  -- What `downloadEncrypted` returns it returns again, without asking the server.
  download-download :
      (api later_api : AttachmentsApi) (disk next_disk : Disk) (id : String) (bytes : Bytes)
      (s : FileStore)
      → (download_encrypted qt lib api disk id s).0 ≡ some bytes
      → next_disk.opens_read ≡ true
      → let s' : FileStore = (download_encrypted qt lib api disk id s).1 in
        download_encrypted qt lib later_api next_disk id s' ≡ (some bytes, s')
  download-download api later_api disk next_disk id bytes s h hr =
      elim (Option-cases (read_encrypted_attachment disk id s)) [
        | inr (local, there) ↦
            let same : local ≡ bytes = some-injective _ _ (
              sym (
                ap (λ (p : Option Bytes × FileStore). p.0)
                  (download-read api disk id local s there))
              ∙ h) in
            rw (download-read api disk id local s there) (
              download-read later_api next_disk id bytes s
                (read-again disk next_disk id bytes s (there ∙ ap (λ (b : Bytes). some b) same) hr))
        | inl absent ↦
            let is : download_encrypted qt lib api disk id s ≡ fetch qt lib api disk id s =
              download-fetch api disk id s absent in
            let (written, store) = fetch-some api disk id bytes s (rw (← is) h) in
            download-read later_api next_disk id bytes _
              (rw (is, store) (read-write disk next_disk id bytes s written hr))
      ]
