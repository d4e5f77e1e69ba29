-- ===== src/Checks/Vault.antt =====
-- The theorems on the vault at concrete inputs.
use vox_desktop.Base.{
  ◌≡◌, refl, true, false, none, some, Bytes, codes, length, [], ◌∷◌, replicate, string_eq,
}
use vox_desktop.Base.Dict.{lookup, insert}
use vox_desktop.Crypto.Helpers.{argon2id_kdf, xchacha_decrypt_local}
use vox_desktop.Crypto.Vault.{
  VaultService, Disk, load_secret, store_secret, remove_secret, derive_key, vault_document,
  unlock_with_password,
}
use vox_desktop.Crypto.Vault.Reopen.{IsOpen, document-fields}
use vox_desktop.Crypto.Vault.Durability.{IsSaved, store_secret_durable}
use vox_desktop.Crypto.Vault.Unlock.{new_vault, field_of, unlock_new_vault, unlock_wrong_password}
use vox_desktop.Checks.Library.{sodium, sodium_laws, counting, counting-IsDraw, qt, qt_laws}

abbrev pub working : Disk
working = record { opens_read = true; opens_write = true; commits = true }

abbrev pub opened : VaultService
opened = record {
  file = some (codes "old");
  vault_key = derive_key qt sodium "pw" (replicate 16 4);
  salt = replicate 16 4;
  secrets = ("a", codes "x") ∷ [];
  unlocked = true;
}

derived-size : length (derive_key qt sodium "pw" (replicate 16 4)) ≡ 32
unfolding derive_key argon2id_kdf
derived-size = refl

pub opened-IsOpen : IsOpen qt qt_laws sodium sodium_laws "pw" opened
opened-IsOpen = record {
  is_unlocked = refl;
  key = refl;
  key_size = derived-size;
  salt_size = refl;
  distinct = (unfold lookup in refl, tt);
}

store_secret_durable_example :
    let (saved, v') = store_secret qt sodium (counting 9) working opened "b" (codes "y") in
    IsSaved qt qt_laws sodium sodium_laws "pw"
      (counting 1)
      (counting 2)
      working
      working
      (record opened { secrets = insert opened.secrets "b" (codes "y") })
      saved
      v'
    × (load_secret v' "b" ≡ some (codes "y"))
store_secret_durable_example =
    store_secret_durable qt qt_laws sodium sodium_laws "pw" (counting 9) (counting 1) (counting 2)
      working working opened "b" "b" (codes "y") opened-IsOpen (counting-IsDraw 9) refl refl refl
      refl refl

fresh-size : length (derive_key qt sodium "pw" (counting 3 16)) ≡ 32
unfolding derive_key argon2id_kdf
fresh-size = refl

-- A service whose file is gone while it has a secret in memory.
abbrev remembered : VaultService
remembered = record opened { file = none; secrets = ("k", codes "v") ∷ [] }

unlock_new_vault_example :
    let (saved, v') =
      unlock_with_password qt sodium (counting 3) (counting 4) working "pw" remembered in
    IsSaved qt qt_laws sodium sodium_laws "pw"
      (counting 1)
      (counting 2)
      working
      working
      (new_vault qt qt_laws sodium sodium_laws "pw" (counting 3) remembered)
      saved
      v'
unlock_new_vault_example =
    unlock_new_vault qt qt_laws sodium sodium_laws "pw" (counting 3) (counting 4) (counting 1)
      (counting 2) working working remembered refl (unfold lookup in refl, tt) refl
      (counting-IsDraw 3) (counting-IsDraw 4) fresh-size refl

-- A vault file whose ciphertext no password opens.
abbrev foreign : Bytes
foreign = qt.to_json (vault_document qt sodium (replicate 16 4) (replicate 24 5) (replicate 20 0))

foreign-salt : field_of qt qt_laws sodium sodium_laws foreign "salt" ≡ replicate 16 4
foreign-salt =
    let (salt, nonce, sealed) =
      document-fields qt qt_laws sodium sodium_laws (replicate 16 4) (replicate 24 5)
        (replicate 20 0) in
    salt

foreign-size :
    length (derive_key qt sodium "pw" (field_of qt qt_laws sodium sodium_laws foreign "salt")) ≡ 32
foreign-size = rw foreign-salt derived-size

foreign-refused :
    xchacha_decrypt_local sodium
      (derive_key qt sodium "pw" (field_of qt qt_laws sodium sodium_laws foreign "salt"))
      (field_of qt qt_laws sodium sodium_laws foreign "nonce")
      (field_of qt qt_laws sodium sodium_laws foreign "ciphertext")
      (codes "vox-vault-v1")
    ≡ none
unfolding derive_key argon2id_kdf xchacha_decrypt_local
foreign-refused =
    let (salt, nonce, sealed) =
      document-fields qt qt_laws sodium sodium_laws (replicate 16 4) (replicate 24 5)
        (replicate 20 0) in
    rw (salt, nonce, sealed) refl

unlock_wrong_password_example :
    let v : VaultService = record opened { file = some foreign } in
    let (done, v') = unlock_with_password qt sodium (counting 3) (counting 4) working "pw" v in
    (done ≡ false)
    × (v'.file ≡ some foreign)
    × (load_secret v' "a" ≡ none)
    × (store_secret qt sodium (counting 9) working v' "a" (codes "y") ≡ (false, v'))
    × (remove_secret qt sodium (counting 9) working v' "a" ≡ (false, v'))
unlock_wrong_password_example =
    unlock_wrong_password qt qt_laws sodium sodium_laws "pw" (counting 3) (counting 4) (counting 9)
      working working (record opened { file = some foreign }) foreign "a" (codes "y") refl refl refl
      foreign-size foreign-refused
