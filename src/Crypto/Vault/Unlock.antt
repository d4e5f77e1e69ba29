-- ===== src/Crypto/Vault/Unlock.antt =====
-- `unlockWithPassword` of src/crypto/VaultService.cpp where it makes a new vault and where it fails.
use vox_desktop.Base.{
  ◌≡◌, ◌∙◌, refl, String, true, false, none, some, Bytes, codes, length, [], text_is_empty,
  is_empty, is_empty-false, string_eq, arith,
}
use vox_desktop.Base.Dict.{lookup, lookup-insert}
use vox_desktop.Base.Dict.Keys.{Distinct}
use vox_desktop.Qt.{Qt, QtLaws}
use vox_desktop.Qt.Json.{value, to_text}
use vox_desktop.Crypto.Sodium.{Sodium, SodiumLaws, Draw, IsDraw}
use vox_desktop.Crypto.Helpers.{xchacha_decrypt_local}
use vox_desktop.Crypto.Helpers.Guards.{random_bytes-eq}
use vox_desktop.Crypto.Vault.{
  VaultService, Disk, lock, load_secret, store_secret, remove_secret, derive_key, from_b64,
  object_of, open_payload, save_vault, load_existing_vault, create_vault, unlock_with_password,
}
use vox_desktop.Crypto.Vault.Reopen.{IsOpen}
use vox_desktop.Crypto.Vault.Durability.{IsSaved, save_vault-IsSaved}

module _ (qt : Qt) (qt_laws : QtLaws qt) (lib : Sodium) (laws : SodiumLaws lib) where
  -- The new vault before it is saved. The secrets that the service had in memory stay.
  abbrev pub new_vault : String → Draw → VaultService → VaultService
  new_vault password draw_salt v = record {
    file = v.file;
    vault_key = derive_key qt lib password (draw_salt 16);
    salt = draw_salt 16;
    secrets = v.secrets;
    unlocked = true;
  }

  unlock-create :
      (password : String) (draw_salt draw_nonce : Draw) (disk : Disk) (v : VaultService)
      → v.file ≡ none
      → text_is_empty password ≡ false
      → unlock_with_password qt lib draw_salt draw_nonce disk password v
        ≡ create_vault qt lib draw_salt draw_nonce disk password v
  unfolding unlock_with_password
  unlock-create password draw_salt draw_nonce disk v absent hp = ground arith

  -- Where libsodium and Qt keep their laws: where there is no file, no secret of the service is
  -- there twice and the key derivation gives a key of 32 bytes, unlocking with a password that is
  -- not empty leaves an open vault with the secrets that the service had in memory, none in a
  -- service that was just made. If the file is opened and committed it returns true, and a later
  -- start that can read the file opens that vault with the password; otherwise it returns false and
  -- there is still no file, but the service is unlocked.
  pub unlock_new_vault :
      (password : String) (draw_salt draw_nonce draw draw' : Draw) (disk next_disk : Disk)
      (v : VaultService)
      → v.file ≡ none
      → Distinct v.secrets
      → text_is_empty password ≡ false
      → IsDraw draw_salt
      → IsDraw draw_nonce
      → length (derive_key qt lib password (draw_salt 16)) ≡ 32
      → next_disk.opens_read ≡ true
      → let (saved, v') = unlock_with_password qt lib draw_salt draw_nonce disk password v in
        IsSaved qt qt_laws lib laws password draw draw' disk next_disk
          (new_vault password draw_salt v)
          saved
          v'
  unfolding create_vault
  unlock_new_vault password draw_salt draw_nonce draw draw' disk next_disk v absent distinct hp ds
        dn hk hr =
      let size : length (draw_salt 16) ≡ 16 = ds 16 in
      let open_new : IsOpen qt qt_laws lib laws password (new_vault password draw_salt v) = record {
        is_unlocked = refl;
        key = refl;
        key_size = hk;
        salt_size = size;
        distinct = distinct;
      } in
      let filled : is_empty (draw_salt 16) ≡ false = is_empty-false (draw_salt 16) (omega arith) in
      rw
        (
          unlock-create password draw_salt draw_nonce disk v absent hp,
          random_bytes-eq lib laws draw_salt 16 (omega arith),
          filled,
          hk,
        )
        (save_vault-IsSaved qt qt_laws lib laws password draw_nonce draw draw' disk next_disk
          (new_vault password draw_salt v) open_new dn hp hr)

  -- The text of a file's field, decoded.
  abbrev pub field_of : Bytes → String → Bytes
  field_of content name =
      from_b64 qt lib (to_text (value (object_of qt lib (qt.from_json content)) name))

  -- Where there is a file that can be read and its ciphertext does not open under the key of 32
  -- bytes that is derived from a password that is not empty, unlocking with that password returns
  -- false and keeps the file; afterwards no secret can be loaded, stored or removed, whether the
  -- vault was unlocked before or not.
  pub unlock_wrong_password :
      (password : String) (draw_salt draw_nonce draw : Draw) (disk next_disk : Disk)
      (v : VaultService) (content : Bytes) (name : String) (secret : Bytes)
      → v.file ≡ some content
      → text_is_empty password ≡ false
      → disk.opens_read ≡ true
      → let key = derive_key qt lib password (field_of content "salt") in
        length key ≡ 32
        → xchacha_decrypt_local lib key
            (field_of content "nonce")
            (field_of content "ciphertext")
            (codes "vox-vault-v1")
          ≡ none
        → let (done, v') = unlock_with_password qt lib draw_salt draw_nonce disk password v in
          (done ≡ false)
          × (v'.file ≡ some content)
          × (load_secret v' name ≡ none)
          × (store_secret qt lib draw next_disk v' name secret ≡ (false, v'))
          × (remove_secret qt lib draw next_disk v' name ≡ (false, v'))
  unfolding unlock_with_password load_existing_vault open_payload lock load_secret store_secret
      remove_secret
  unlock_wrong_password password draw_salt draw_nonce draw disk next_disk v content name secret hf
        hp hr hk hd =
      rw (hf, hp, hr, hk, hd) (refl, hf, refl, refl, refl)

  -- Where there is a file that can be read and the key derivation fails, `unlockWithPassword` with
  -- a password that is not empty, on a vault that is already unlocked, returns false but leaves it
  -- unlocked and without a key: the secret under a name that is not empty can still be loaded,
  -- while storing one that is not empty returns false and yet changes what is loaded, and not the
  -- file.
  unlock_without_key :
      (password : String) (draw_salt draw_nonce draw : Draw) (disk next_disk : Disk)
      (v : VaultService) (content : Bytes) (name : String) (secret : Bytes)
      → v.file ≡ some content
      → v.unlocked ≡ true
      → text_is_empty password ≡ false
      → disk.opens_read ≡ true
      → text_is_empty name ≡ false
      → is_empty secret ≡ false
      → derive_key qt lib password (field_of content "salt") ≡ []
      → let (done, v') = unlock_with_password qt lib draw_salt draw_nonce disk password v in
        let (stored, v'') = store_secret qt lib draw next_disk v' name secret in
        (done ≡ false)
        × (load_secret v' name ≡ lookup v.secrets name)
        × (stored ≡ false)
        × (load_secret v'' name ≡ some secret)
        × (v''.file ≡ some content)
  unfolding unlock_with_password load_existing_vault load_secret store_secret save_vault
  unlock_without_key password draw_salt draw_nonce draw disk next_disk v content name secret hf hu
        hp hr hn hs hk =
      rw (hf, hp, hr, hk, hu, hn, hs)
        (
          refl,
          refl,
          refl,
          lookup-insert v.secrets name name secret ∙ ground (arith, string_eq.beq_iff name name),
          hf,
        )
