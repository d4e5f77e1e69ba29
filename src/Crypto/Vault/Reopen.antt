-- ===== src/Crypto/Vault/Reopen.antt =====
-- What a vault of src/crypto/VaultService.cpp holds after it was closed and opened again.
use vox_desktop.Base.{
  ◌≡◌, sym, ap, String, Bool, true, false, some, Bytes, codes, length, [], is_empty-false,
  text_is_empty, string_eq, arith, ◌&&◌, if◌then◌else◌,
}
use vox_desktop.Base.Dict.{Dict}
use vox_desktop.Base.Dict.Keys.{Distinct}
use vox_desktop.Qt.{Qt, QtLaws}
use vox_desktop.Qt.Json.{Fields, nil, object, value, to_text, to_object}
use vox_desktop.Qt.Json
use vox_desktop.Crypto.Sodium.{Sodium, SodiumLaws, Draw, IsDraw}
use vox_desktop.Crypto.Helpers.{random_bytes, xchacha_encrypt_local}
use vox_desktop.Crypto.Helpers.Guards.{length-xchacha_encrypt_local, xchacha_decrypt_local-encrypt}
use vox_desktop.Crypto.Vault.{
  VaultService, Disk, closed, object_of, payload_of, secrets_of, derive_key, vault_document,
  save_vault, open_payload, load_existing_vault, unlock_with_password, from_b64,
}
use vox_desktop.Crypto.Vault.Payload.{payload_of-eq-encoded, secrets_of-encoded}

module _ (qt : Qt) (qt_laws : QtLaws qt) (lib : Sodium) (laws : SodiumLaws lib) where
  -- An unlocked vault under a password: its key is the password's, and no secret is there twice.
  pub record IsOpen (password : String) (v : VaultService) : Type 0 where
    pub is_unlocked : v.unlocked ≡ true
    pub key : v.vault_key ≡ derive_key qt lib password v.salt
    pub key_size : length v.vault_key ≡ 32
    pub salt_size : length v.salt ≡ 16
    pub distinct : Distinct v.secrets

  -- The file that a save writes, and what the service is then.
  abbrev pub written : Draw → VaultService → Bytes
  written draw v = qt.to_json (
      vault_document qt lib v.salt (draw 24) (
        xchacha_encrypt_local lib v.vault_key (draw 24)
          (qt.to_json (object (payload_of qt lib nil v.secrets))) (codes "vox-vault-v1")))

  -- Saving an open vault succeeds exactly if the file is opened and committed.
  pub save_vault_lem :
      (password : String) (draw : Draw) (disk : Disk) (v : VaultService)
      → IsOpen password v
      → IsDraw draw
      → save_vault qt lib draw disk v ≡ (
          if disk.opens_write && disk.commits
          then (true, record v { file = some (written draw v) })
          else (false, v))
  unfolding save_vault random_bytes
  save_vault_lem password draw disk v o d =
      let payload = qt.to_json (object (payload_of qt lib nil v.secrets)) in
      let sealed = xchacha_encrypt_local lib v.vault_key (draw 24) payload (codes "vox-vault-v1") in
      let size =
        length-xchacha_encrypt_local lib laws v.vault_key (draw 24) payload (codes "vox-vault-v1")
          o.key_size (d 24) in
      ground (arith, laws.ready, d 24, size, is_empty-false sealed)

  -- The fields that `loadExistingVault` looks up in the document.
  pub document-fields :
      (salt nonce ciphertext : Bytes)
      → let root =
          object_of qt lib
            (qt.from_json (qt.to_json (vault_document qt lib salt nonce ciphertext))) in
        (from_b64 qt lib (to_text (value root "salt")) ≡ salt)
        × (from_b64 qt lib (to_text (value root "nonce")) ≡ nonce)
        × (from_b64 qt lib (to_text (value root "ciphertext")) ≡ ciphertext)
  unfolding vault_document value Json.insert
  document-fields salt nonce ciphertext =
      rw (qt_laws.json_round_trip (vault_document qt lib salt nonce ciphertext) tt) (
        qt_laws.base64_round_trip salt,
        qt_laws.base64_round_trip nonce,
        qt_laws.base64_round_trip ciphertext,
      )

  payload-secrets :
      (m : Dict String Bytes)
      → Distinct m
      → secrets_of qt lib []
          (object_of qt lib (qt.from_json (qt.to_json (object (payload_of qt lib nil m)))))
        ≡ m
  payload-secrets m d =
      rw
        (
          qt_laws.json_round_trip (object (payload_of qt lib nil m)) tt,
          payload_of-eq-encoded qt lib m d,
        )
        (secrets_of-encoded qt qt_laws lib m d)

  -- The file that an open vault writes is opened by the vault's password in a service that has just
  -- been started, which then holds the same secrets.
  pub unlock-written :
      (password : String) (draw draw_salt draw_nonce : Draw) (disk : Disk) (v : VaultService)
      → IsOpen password v
      → IsDraw draw
      → text_is_empty password ≡ false
      → disk.opens_read ≡ true
      → unlock_with_password qt lib draw_salt draw_nonce disk password
          (closed (some (written draw v)))
        ≡ (true, record v { file = some (written draw v) })
  unfolding unlock_with_password load_existing_vault open_payload
  unlock-written password draw draw_salt draw_nonce disk v o d p r =
      let payload = qt.to_json (object (payload_of qt lib nil v.secrets)) in
      let sealed = xchacha_encrypt_local lib v.vault_key (draw 24) payload (codes "vox-vault-v1") in
      let (is_salt, is_nonce, is_sealed) = document-fields v.salt (draw 24) sealed in
      let opened =
        xchacha_decrypt_local-encrypt lib laws v.vault_key (draw 24) payload (codes "vox-vault-v1")
          o.key_size (d 24) in
      rw
        (
          p,
          r,
          is_salt,
          is_nonce,
          is_sealed,
          ← o.key,
          o.key_size,
          opened,
          payload-secrets v.secrets o.distinct,
        )
        (ap (λ (b : Bool). (true, record v { file = some (written draw v); unlocked = b }))
          (sym o.is_unlocked))
