-- ===== src/Storage/FileStore.antt =====
-- src/storage/FileStore.cpp: the encrypted attachments and the decrypted previews, by their path.
use Prim.Native.String.{◌++◌ as append_text}
use vox_desktop.Base.{
  String, string_eq, Bool, true, false, ◌&&◌, Bytes, Option, none, has_value, if◌then◌else◌,
}
use vox_desktop.Base.Dict.{Dict, lookup, insert, remove}
use vox_desktop.Crypto.Vault.{Disk}

pub record FileStore : Type 0 where
  pub root_path : String
  pub files : Dict String Bytes

unfoldable pub encrypted_attachment_path : FileStore → String → String
encrypted_attachment_path s id =
    append_text (append_text (append_text s.root_path "/encrypted/") id) ".bin"

unfoldable pub decrypted_preview_path : FileStore → String → String
decrypted_preview_path s id =
    append_text (append_text (append_text s.root_path "/preview/") id) ".bin"

-- QSaveFile: the file is replaced as a whole when it is committed, and else left as it was.
abbrev pub save_file : Disk → String → Bytes → FileStore → Bool × FileStore
save_file disk path bytes s =
    if disk.opens_write && disk.commits
    then (true, record s { files = insert s.files path bytes })
    else (false, s)

unfoldable pub write_encrypted_attachment : Disk → String → Bytes → FileStore → Bool × FileStore
write_encrypted_attachment disk id bytes s = save_file disk (encrypted_attachment_path s id) bytes s

unfoldable pub read_encrypted_attachment : Disk → String → FileStore → Option Bytes
read_encrypted_attachment disk id s =
    if disk.opens_read then lookup s.files (encrypted_attachment_path s id) else none

unfoldable pub write_decrypted_preview : Disk → String → Bytes → FileStore → Bool × FileStore
write_decrypted_preview disk id bytes s = save_file disk (decrypted_preview_path s id) bytes s

-- QFile::remove: `allowed` says whether the file system lets the file go.
unfoldable pub remove_decrypted_preview : Bool → String → FileStore → Bool × FileStore
remove_decrypted_preview allowed id s =
    let path = decrypted_preview_path s id in
    if allowed && has_value (lookup s.files path)
    then (true, record s { files = remove s.files path })
    else (false, s)
