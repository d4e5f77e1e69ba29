-- ===== src/Crypto/Vault.antt =====
-- src/crypto/VaultService.cpp: secrets in memory, kept encrypted in one file. A method returns its
-- result beside the new state of the service, which includes the file.
pub mod Payload
pub mod Reopen
pub mod Durability
pub mod Unlock
use vox_desktop.Base.{
  ℕ, String, Bool, true, false, not, ◌||◌, Option, none, some, Bytes, codes, length, [], ◌∷◌,
  is_empty, nat_beq, has_value, text_is_empty, string_eq, if◌then◌else◌,
}
use vox_desktop.Base.Int.{ℤ, pos}
use vox_desktop.Base.Dict.{Dict, lookup, insert, remove}
use vox_desktop.Qt.{Qt}
use vox_desktop.Qt.Json
use vox_desktop.Qt.Json.{Json, Fields, nil, field, text, number, object, value, to_text, to_object}
use vox_desktop.Crypto.Sodium.{
  Sodium, Draw, chacha20_key_bytes, xchacha20_nonce_bytes, pwhash_salt_bytes,
}
use vox_desktop.Crypto.Helpers.{
  random_bytes, argon2id_kdf, xchacha_encrypt_local, xchacha_decrypt_local,
}

-- What the file system answers during a call: whether the vault file can be opened to read, opened
-- to write, and whether the write is committed. A QSaveFile that is not committed changes nothing.
pub record Disk : Type 0 where
  pub opens_read : Bool
  pub opens_write : Bool
  pub commits : Bool

pub record VaultService : Type 0 where
  pub file : Option Bytes
  pub vault_key : Bytes
  pub salt : Bytes
  pub secrets : Dict String Bytes
  pub unlocked : Bool

-- crypto_pwhash_OPSLIMIT_INTERACTIVE and crypto_pwhash_MEMLIMIT_INTERACTIVE
abbrev pub vault_ops_limit : ℕ
vault_ops_limit = 2

abbrev pub vault_mem_limit : ℕ
vault_mem_limit = 67108864

-- The constructor, over what the vault path holds.
abbrev pub closed : Option Bytes → VaultService
closed file = record { file = file; vault_key = []; salt = []; secrets = []; unlocked = false }

unfoldable pub lock : VaultService → VaultService
lock v = record v { vault_key = []; secrets = []; unlocked = false }

unfoldable pub load_secret : VaultService → String → Option Bytes
load_secret v name = if not v.unlocked || text_is_empty name then none else lookup v.secrets name

module _ (qt : Qt) (lib : Sodium) where
  -- ToB64 as a QString, and FromB64 of a QString.
  abbrev pub to_b64 : Bytes → String
  to_b64 bytes = qt.from_utf8 (qt.to_base64 bytes)

  abbrev pub from_b64 : String → Bytes
  from_b64 s = qt.from_base64 (qt.to_utf8 s)

  -- QJsonDocument::fromJson(bytes).object(), empty where there is no document or no object.
  abbrev pub object_of : Option Json → Fields
  object_of none = nil
  object_of (some j) = to_object j

  -- The loops over `m_secrets` in `saveVault` and over the object in `loadExistingVault`.
  unfoldable pub payload_of : Fields → Dict String Bytes → Fields
  payload_of payload_obj [] = payload_obj
  payload_of payload_obj ((k, v) ∷ m) = payload_of (Json.insert payload_obj k (text (to_b64 v))) m

  unfoldable pub secrets_of : Dict String Bytes → Fields → Dict String Bytes
  secrets_of secrets nil = secrets
  secrets_of secrets (field k v fs) = secrets_of (insert secrets k (from_b64 (to_text v))) fs

  unfoldable pub derive_key : String → Bytes → Bytes
  derive_key password salt =
      argon2id_kdf lib (qt.to_utf8 password) salt vault_ops_limit vault_mem_limit chacha20_key_bytes

  -- The document that `saveVault` writes.
  unfoldable pub vault_document : Bytes → Bytes → Bytes → Json
  vault_document salt nonce ciphertext = object (
      Json.insert
        (Json.insert
          (Json.insert (Json.insert nil "version" (number (pos 1))) "salt" (text (to_b64 salt)))
          "nonce" (text (to_b64 nonce)))
        "ciphertext" (text (to_b64 ciphertext)))

  unfoldable pub save_vault : Draw → Disk → VaultService → Bool × VaultService
  save_vault draw disk v =
      let payload = qt.to_json (object (payload_of nil v.secrets)) in
      let nonce = random_bytes lib draw (pos xchacha20_nonce_bytes) in
      let ciphertext = xchacha_encrypt_local lib v.vault_key nonce payload (codes "vox-vault-v1") in
      let written = qt.to_json (vault_document v.salt nonce ciphertext) in
      if not v.unlocked
        || not (nat_beq (length v.vault_key) chacha20_key_bytes)
        || not (nat_beq (length v.salt) pwhash_salt_bytes)
      then (false, v)
      else if not (nat_beq (length nonce) xchacha20_nonce_bytes)
      then (false, v)
      else if is_empty ciphertext
      then (false, v)
      else if not disk.opens_write
      then (false, v)
      else if disk.commits
      then (true, record v { file = some written })
      else (false, v)

  unfoldable pub store_secret : Draw → Disk → VaultService → String → Bytes → Bool × VaultService
  store_secret draw disk v name secret =
      if not v.unlocked || text_is_empty name || is_empty secret
      then (false, v)
      else save_vault draw disk (record v { secrets = insert v.secrets name secret })

  unfoldable pub remove_secret : Draw → Disk → VaultService → String → Bool × VaultService
  remove_secret draw disk v name =
      if not v.unlocked || text_is_empty name
      then (false, v)
      else if not (has_value (lookup v.secrets name))
      then (true, v)
      else save_vault draw disk (record v { secrets = remove v.secrets name })

  -- The end of `loadExistingVault`, from the decrypted payload on.
  unfoldable pub open_payload : Option Bytes → VaultService → Bool × VaultService
  open_payload none v = (false, lock v)
  open_payload (some decrypted) v = (
    true,
    record v { secrets = secrets_of [] (object_of (qt.from_json decrypted)); unlocked = true },
  )

  unfoldable pub load_existing_vault : Disk → Bytes → String → VaultService → Bool × VaultService
  load_existing_vault disk content password v =
      let root = object_of (qt.from_json content) in
      let salt = from_b64 (to_text (value root "salt")) in
      let nonce = from_b64 (to_text (value root "nonce")) in
      let ciphertext = from_b64 (to_text (value root "ciphertext")) in
      let vault_key = derive_key password salt in
      let keyed = record v { salt = salt; vault_key = vault_key } in
      if not disk.opens_read
      then (false, v)
      else if not (nat_beq (length vault_key) chacha20_key_bytes)
      then (false, keyed)
      else open_payload
          (xchacha_decrypt_local lib vault_key nonce ciphertext (codes "vox-vault-v1")) keyed

  -- The first draw is that of the salt, the second the nonce of `saveVault`.
  unfoldable pub create_vault : Draw → Draw → Disk → String → VaultService → Bool × VaultService
  create_vault draw_salt draw_nonce disk password v =
      let salt = random_bytes lib draw_salt (pos pwhash_salt_bytes) in
      let vault_key = derive_key password salt in
      let salted = record v { salt = salt } in
      let keyed = record v { salt = salt; vault_key = vault_key } in
      if is_empty salt
      then (false, salted)
      else if not (nat_beq (length vault_key) chacha20_key_bytes)
      then (false, keyed)
      else save_vault draw_nonce disk (record keyed { unlocked = true })

  unfoldable pub unlock_with_password :
      Draw → Draw → Disk → String → VaultService → Bool × VaultService
  unlock_with_password draw_salt draw_nonce disk password v =
      if text_is_empty password then (false, v) else elim v.file [
        | some content ↦ load_existing_vault disk content password v
        | none ↦ create_vault draw_salt draw_nonce disk password v
      ]
