-- ===== src/Crypto/Vault/Durability.antt =====
-- Storing and removing secrets of src/crypto/VaultService.cpp, up to the next start.
use vox_desktop.Base.{
  ◌≡◌, ◌∙◌, ap, refl, String, Bool, true, false, not, ◌&&◌, Option, none, some, Bytes, is_empty,
  text_is_empty, string_eq, ◌==◌, ◌||◌, Bool-cases, Option-cases, inl, inr, has_value, arith,
  if◌then◌else◌,
}
use vox_desktop.Base.Dict.{Dict, lookup, insert, remove, lookup-insert, lookup-remove}
use vox_desktop.Base.Dict.Keys.{insert-Distinct, remove-Distinct}
use vox_desktop.Qt.{Qt, QtLaws}
use vox_desktop.Crypto.Sodium.{Sodium, SodiumLaws, Draw, IsDraw}
use vox_desktop.Crypto.Vault.{
  VaultService, Disk, closed, load_secret, save_vault, store_secret, remove_secret,
  unlock_with_password,
}
use vox_desktop.Crypto.Vault.Reopen.{IsOpen, save_vault_lem, unlock-written}

module _ (qt : Qt) (qt_laws : QtLaws qt) (lib : Sodium) (laws : SodiumLaws lib) where
  with_secret-IsOpen :
      (password : String) (v : VaultService) (name : String) (secret : Bytes)
      → IsOpen qt qt_laws lib laws password v
      → IsOpen qt qt_laws lib laws password (record v { secrets = insert v.secrets name secret })
  with_secret-IsOpen password v name secret o = record {
    is_unlocked = o.is_unlocked;
    key = o.key;
    key_size = o.key_size;
    salt_size = o.salt_size;
    distinct = insert-Distinct v.secrets name secret o.distinct;
  }

  without_secret-IsOpen :
      (password : String) (v : VaultService) (name : String)
      → IsOpen qt qt_laws lib laws password v
      → IsOpen qt qt_laws lib laws password (record v { secrets = remove v.secrets name })
  without_secret-IsOpen password v name o = record {
    is_unlocked = o.is_unlocked;
    key = o.key;
    key_size = o.key_size;
    salt_size = o.salt_size;
    distinct = remove-Distinct v.secrets name o.distinct;
  }

  with_file-IsOpen :
      (password : String) (v : VaultService) (content : Option Bytes)
      → IsOpen qt qt_laws lib laws password v
      → IsOpen qt qt_laws lib laws password (record v { file = content })
  with_file-IsOpen password v content o = record {
    is_unlocked = o.is_unlocked;
    key = o.key;
    key_size = o.key_size;
    salt_size = o.salt_size;
    distinct = o.distinct;
  }

  -- A save of an open vault, without the file.
  save_vault-IsOpen :
      (password : String) (draw : Draw) (disk : Disk) (v : VaultService)
      → IsOpen qt qt_laws lib laws password v
      → IsDraw draw
      → let (saved, v') = save_vault qt lib draw disk v in
        IsOpen qt qt_laws lib laws password v'
        × (v'.secrets ≡ v.secrets)
        × (saved ≡ (disk.opens_write && disk.commits))
  save_vault-IsOpen password draw disk v o d =
      rw (save_vault_lem qt qt_laws lib laws password draw disk v o d)
        (elim (Bool-cases (disk.opens_write && disk.commits)) [
          | inl kept ↦ rw kept (with_file-IsOpen password v _ o, refl, refl)
          | inr lost ↦ rw lost (o, refl, refl)
        ])

  -- `storeSecret` on an open vault, without the file.
  pub store_secret-IsOpen :
      (password : String) (draw : Draw) (disk : Disk) (v : VaultService) (name : String)
      (secret : Bytes)
      → IsOpen qt qt_laws lib laws password v
      → IsDraw draw
      → text_is_empty name ≡ false
      → is_empty secret ≡ false
      → let (saved, v') = store_secret qt lib draw disk v name secret in
        IsOpen qt qt_laws lib laws password v'
        × (v'.secrets ≡ insert v.secrets name secret)
        × (saved ≡ (disk.opens_write && disk.commits))
  unfolding store_secret
  store_secret-IsOpen password draw disk v name secret o d hn hs =
      let allowed : (not v.unlocked || text_is_empty name || is_empty secret) ≡ false =
        ground (arith, o.is_unlocked) in
      rw allowed (
        save_vault-IsOpen password draw disk (record v { secrets = insert v.secrets name secret })
          (with_secret-IsOpen password v name secret o) d)

  -- A save of an open vault: the vault stays open with the same secrets, and what the file holds is
  -- told by the result.
  unfoldable pub IsSaved :
      String → Draw → Draw → Disk → Disk → VaultService → Bool → VaultService → Type 0
  IsSaved password draw_salt draw_nonce disk next_disk v saved v' =
      IsOpen qt qt_laws lib laws password v'
      × (v'.secrets ≡ v.secrets)
      × (saved ≡ (disk.opens_write && disk.commits))
      × (if saved
          then unlock_with_password qt lib draw_salt draw_nonce next_disk password (closed v'.file)
            ≡ (true, v')
          else v'.file ≡ v.file)

  pub save_vault-IsSaved :
      (password : String) (draw draw_salt draw_nonce : Draw) (disk next_disk : Disk)
      (v : VaultService)
      → IsOpen qt qt_laws lib laws password v
      → IsDraw draw
      → text_is_empty password ≡ false
      → next_disk.opens_read ≡ true
      → let (saved, v') = save_vault qt lib draw disk v in
        IsSaved password draw_salt draw_nonce disk next_disk v saved v'
  unfolding IsSaved
  save_vault-IsSaved password draw draw_salt draw_nonce disk next_disk v o d hp hr =
      rw (save_vault_lem qt qt_laws lib laws password draw disk v o d)
        (elim (Bool-cases (disk.opens_write && disk.commits)) [
          | inl kept ↦ rw kept (
            with_file-IsOpen password v _ o,
            refl,
            refl,
            unlock-written qt qt_laws lib laws password draw draw_salt draw_nonce next_disk v o d hp
                hr,
          )
          | inr lost ↦ rw lost (o, refl, refl, refl)
        ])

  pub load_secret-eq :
      (password : String) (v : VaultService) (name : String)
      → IsOpen qt qt_laws lib laws password v
      → text_is_empty name ≡ false
      → load_secret v name ≡ lookup v.secrets name
  unfolding load_secret
  load_secret-eq password v name o h =
      let guard : (not v.unlocked || text_is_empty name) ≡ false = ground (arith, o.is_unlocked) in
      rw guard refl

  -- Where libsodium and Qt keep their laws, and on a vault that is open under a password that is
  -- not empty: `storeSecret` of a secret that is not empty, under a name that is not empty, keeps
  -- the vault open, and afterwards the name has the secret and every other name that is not empty
  -- what it had. If the file is opened and committed it returns true, and a service started on the
  -- new file, which can be read, and unlocked with the password is in the very same state;
  -- otherwise it returns false and leaves the file as it was, though the service holds the secret.
  pub store_secret_durable :
      (password : String) (draw draw_salt draw_nonce : Draw) (disk next_disk : Disk)
      (v : VaultService) (name other : String) (secret : Bytes)
      → IsOpen qt qt_laws lib laws password v
      → IsDraw draw
      → text_is_empty password ≡ false
      → text_is_empty name ≡ false
      → text_is_empty other ≡ false
      → is_empty secret ≡ false
      → next_disk.opens_read ≡ true
      → let (saved, v') = store_secret qt lib draw disk v name secret in
        IsSaved password draw_salt draw_nonce disk next_disk
          (record v { secrets = insert v.secrets name secret })
          saved
          v'
        × (load_secret v' other ≡ (if name == other then some secret else load_secret v other))
  unfolding store_secret IsSaved
  store_secret_durable password draw draw_salt draw_nonce disk next_disk v name other secret o d hp
        hn ho hs hr =
      let v1 : VaultService = record v { secrets = insert v.secrets name secret } in
      let saved =
        save_vault-IsSaved password draw draw_salt draw_nonce disk next_disk v1
          (with_secret-IsOpen password v name secret o) d hp hr in
      let allowed : (not v.unlocked || text_is_empty name || is_empty secret) ≡ false =
        ground (arith, o.is_unlocked) in
      rw allowed (
        saved,
        load_secret-eq password _ other saved.0 ho
            ∙ ap (λ (m : Dict String Bytes). lookup m other) saved.1
            ∙ lookup-insert v.secrets name other secret
            ∙ rw (load_secret-eq password v other o ho) refl,
      )

  -- Where libsodium and Qt keep their laws, and on a vault that is open under a password that is
  -- not empty: after `removeSecret` of a name that is not empty the name has no secret and every
  -- other name that is not empty what it had. If the name had a secret, the vault stays open and
  -- the file follows as after `storeSecret`; if it had none, the call returns true and changes
  -- nothing.
  pub remove_secret_durable :
      (password : String) (draw draw_salt draw_nonce : Draw) (disk next_disk : Disk)
      (v : VaultService) (name other : String)
      → IsOpen qt qt_laws lib laws password v
      → IsDraw draw
      → text_is_empty password ≡ false
      → text_is_empty name ≡ false
      → text_is_empty other ≡ false
      → next_disk.opens_read ≡ true
      → let (saved, v') = remove_secret qt lib draw disk v name in
        (if has_value (lookup v.secrets name)
          then IsSaved password draw_salt draw_nonce disk next_disk
              (record v { secrets = remove v.secrets name })
              saved
              v'
          else remove_secret qt lib draw disk v name ≡ (true, v))
        × (load_secret v' other ≡ (if name == other then none else load_secret v other))
  unfolding remove_secret IsSaved
  remove_secret_durable password draw draw_salt draw_nonce disk next_disk v name other o d hp hn ho
        hr =
      let v1 : VaultService = record v { secrets = remove v.secrets name } in
      let saved =
        save_vault-IsSaved password draw draw_salt draw_nonce disk next_disk v1
          (without_secret-IsOpen password v name o) d hp hr in
      let allowed : (not v.unlocked || text_is_empty name) ≡ false =
        ground (arith, o.is_unlocked) in
      rw allowed (elim (Option-cases (lookup v.secrets name)) [
        | inl absent ↦ rw absent (
          refl,
          rw (load_secret-eq password v other o ho) (ground (arith, string_eq.beq_iff name other)),
        )
        | inr (secret, present) ↦ rw present (
          saved,
          load_secret-eq password _ other saved.0 ho
              ∙ ap (λ (m : Dict String Bytes). lookup m other) saved.1
              ∙ lookup-remove v.secrets name other
              ∙ rw (load_secret-eq password v other o ho) refl,
        )
      ])
