-- ===== src/App/Startup/Kept.antt =====
-- src/app/ServiceLocator.cpp: what the next start finds.
use vox_desktop.Base.{
  ◌≡◌, ◌∙◌, refl, ap, String, string_eq, Bool, true, false, ◌&&◌, ◌||◌, Bytes, codes, length,
  is_empty, is_empty-false, none, some, text_is_empty, Bool-cases, inl, inr, arith,
}
use vox_desktop.Base.Int.{pos}
use vox_desktop.Base.Dict.{Dict, lookup}
use vox_desktop.Qt.{Qt, QtLaws}
use vox_desktop.Crypto.Sodium.{Sodium, SodiumLaws, IsDraw}
use vox_desktop.Crypto.Helpers.{random_bytes}
use vox_desktop.Crypto.Hkdf.{hkdf_sha256}
use vox_desktop.Crypto.Helpers.Guards.{length-random_bytes}
use vox_desktop.Crypto.Hkdf.Rfc5869.{length-hkdf_sha256}
use vox_desktop.Crypto.Vault.{
  VaultService, closed, derive_key, unlock_with_password, load_secret, store_secret,
}
use vox_desktop.Crypto.Vault.Reopen.{IsOpen}
use vox_desktop.Crypto.Vault.Durability.{IsSaved, load_secret-eq, store_secret_durable}
use vox_desktop.Crypto.Vault.Unlock.{unlock_new_vault}
use vox_desktop.Storage.Migrations.{DatabaseSchema, connected, run}
use vox_desktop.App.Startup.{
  Installation, StartEnv, ServiceLocator, started, device_id_of, services_with, new_search_key,
  build, initialize,
}

-- Around a start the directory, the database with its migration, and the file store work.
pub record IsWorking (env : StartEnv) (schema : DatabaseSchema) : Type 0 where
  pub directory : env.dir_exists || env.dir_made ≡ true
  pub database : env.database_opens ≡ true
  pub migrates : (run env.migration (connected schema)).0 ≡ true
  pub files : env.files_ready ≡ true

device_id_of-again :
    (env next : StartEnv) (id : String)
    → text_is_empty env.new_device_id ≡ false
    → device_id_of next (device_id_of env id) ≡ device_id_of env id
device_id_of-again env next id h = elim (Bool-cases (text_is_empty id)) [
  | inl none' ↦ rw (none', h) refl
  | inr there ↦ rw (there, there) refl
]

module _ (qt : Qt) (qt_laws : QtLaws qt) (lib : Sodium) (laws : SodiumLaws lib) where
  abbrev pub installed : StartEnv → Installation → VaultService → Installation
  installed env here vault = record here {
    vault_file = vault.file;
    schema = (run env.migration (connected here.schema)).1.stored;
  }

  initialize-build :
      (env : StartEnv) (url password : String) (here : Installation) (vault : VaultService)
      → IsWorking env here.schema
      → unlock_with_password qt lib env.draw_salt env.draw_nonce env.vault_disk password
          (closed here.vault_file)
        ≡ (true, vault)
      → initialize qt lib env url password here
        ≡ build qt lib env url vault (installed env here vault)
  unfolding initialize
  initialize-build env url password here vault w unlocked =
      rw (unlocked, w.directory, w.database, w.migrates, w.files) refl

  new_search_key_filled :
      (env : StartEnv) → IsDraw env.seed_draw → is_empty (new_search_key qt lib env) ≡ false
  unfolding new_search_key
  new_search_key_filled env d =
      let seed = random_bytes lib env.seed_draw (pos 32) in
      let size = length-random_bytes lib laws env.seed_draw 32 d (omega arith) in
      let filled = is_empty-false seed (omega (arith, size)) in
      let salt = codes "vox-search" in
      let info = codes "vox/search-index-key" in
      let key_size =
        length-hkdf_sha256 lib laws seed salt info 32 filled (omega arith) (omega arith) in
      is_empty-false (hkdf_sha256 lib seed salt info (pos 32)) (omega (arith, key_size))

  -- The first start: a new vault, and in it the new search key.
  first_vault : String → StartEnv → VaultService
  first_vault password env =
      (unlock_with_password qt lib env.draw_salt env.draw_nonce env.vault_disk password
        (closed none)).1

  kept_vault : String → StartEnv → VaultService
  unfolding first_vault
  kept_vault password env =
      (store_secret qt lib env.key_draw env.key_disk (first_vault password env) "search_index_key"
        (new_search_key qt lib env)).1

  -- What the first start does with the vault, and what the next one reads from it.
  pub record IsNewVault (password : String) (env next : StartEnv) : Type 0 where
    pub password_filled : text_is_empty password ≡ false
    pub salt : IsDraw env.draw_salt
    pub nonce : IsDraw env.draw_nonce
    pub seed : IsDraw env.seed_draw
    pub key_nonce : IsDraw env.key_draw
    pub derived : length (derive_key qt lib password (env.draw_salt 16)) ≡ 32
    pub vault_saves : env.vault_disk.opens_write && env.vault_disk.commits ≡ true
    pub key_saves : env.key_disk.opens_write && env.key_disk.commits ≡ true
    pub reads : next.vault_disk.opens_read ≡ true

  first_start :
      (password : String) (env next : StartEnv)
      → IsNewVault password env next
      → (unlock_with_password qt lib env.draw_salt env.draw_nonce env.vault_disk password
            (closed none)
          ≡ (true, first_vault password env))
        × IsOpen qt qt_laws lib laws password (first_vault password env)
        × (load_secret (first_vault password env) "search_index_key" ≡ none)
  unfolding first_vault IsSaved lookup
  first_start password env next n =
      let (is_open, secrets, saved, reopened) =
        unlock_new_vault qt qt_laws lib laws password env.draw_salt env.draw_nonce next.draw_salt
          next.draw_nonce env.vault_disk next.vault_disk (closed none) refl tt n.password_filled
          n.salt n.nonce n.derived n.reads in
      let v = first_vault password env in
      (
        ap (λ (b : Bool). (b, v)) (saved ∙ n.vault_saves),
        is_open,
        load_secret-eq qt qt_laws lib laws password v "search_index_key" is_open refl
            ∙ ap (λ (d : Dict String Bytes). lookup d "search_index_key") secrets,
      )

  next_start :
      (password : String) (env next : StartEnv)
      → IsNewVault password env next
      → (unlock_with_password qt lib next.draw_salt next.draw_nonce next.vault_disk password
            (closed (kept_vault password env).file)
          ≡ (true, kept_vault password env))
        × (load_secret (kept_vault password env) "search_index_key"
            ≡ some (new_search_key qt lib env))
  unfolding kept_vault IsSaved
  next_start password env next n =
      let (unlocked, is_open, absent) = first_start password env next n in
      let (saved_as, loaded) =
        store_secret_durable qt qt_laws lib laws password env.key_draw next.draw_salt
          next.draw_nonce env.key_disk next.vault_disk (first_vault password env) "search_index_key"
          "search_index_key" (new_search_key qt lib env) is_open n.key_nonce n.password_filled refl
          refl (new_search_key_filled env n.seed) n.reads in
      let (still_open, secrets, saved, reopened) = saved_as in
      let kept : (store_secret qt lib env.key_draw env.key_disk (first_vault password env)
            "search_index_key" (new_search_key qt lib env)).0
          ≡ true =
        saved ∙ n.key_saves in
      (rw kept at reopened, loaded)

  -- Two starts, one after the other, that give services with the same search key, the same vault and
  -- the same device.
  pub record IsSame (env next : StartEnv) (url next_url password : String) (here : Installation)
      : Type 0 where
    pub left : Installation
    pub left_again : Installation
    pub services : ServiceLocator
    pub services_again : ServiceLocator
    pub is_started : initialize qt lib env url password here ≡ started services left
    pub is_started_again :
        initialize qt lib next next_url password left ≡ started services_again left_again
    pub same_key : services_again.search_index_key ≡ services.search_index_key
    pub same_vault : services_again.auth_service.vault ≡ services.auth_service.vault
    pub same_device : services_again.auth_service.device_id ≡ services.auth_service.device_id
    pub same_file : left_again.vault_file ≡ left.vault_file

  -- Where libsodium and Qt keep their laws, the password is not empty, the key derivation succeeds,
  -- both saves of the vault are written, the new UUID is not empty, and the directories and the
  -- database work at both starts: the first start on a device without a vault gives services, and the
  -- next start with the same password, over what the first has left and for whatever server, gives
  -- services with the same search key, the same vault and the same device id.
  pub initialize_again :
      (url next_url password : String) (env next : StartEnv) (here : Installation)
      → here.vault_file ≡ none
      → IsNewVault password env next
      → text_is_empty env.new_device_id ≡ false
      → IsWorking env here.schema
      → IsWorking next (run env.migration (connected here.schema)).1.stored
      → IsSame env next url next_url password here
  unfolding build kept_vault
  initialize_again url next_url password env next here new n id_filled works works_next =
      let (unlocked, is_open, absent) = first_start password env next n in
      let (unlocked_again, present) = next_start password env next n in
      let key = new_search_key qt lib env in
      let v = kept_vault password env in
      let with_vault = installed env here (first_vault password env) in
      let left : Installation = record with_vault {
        vault_file = v.file;
        device_id = device_id_of env here.device_id;
      } in
      let with_vault_again = installed next left v in
      record {
        left = left;
        left_again = record with_vault_again {
          vault_file = v.file;
          device_id = device_id_of next left.device_id;
        };
        services = services_with env url v key with_vault;
        services_again = services_with next next_url v key with_vault_again;
        is_started =
            initialize-build env url password here (first_vault password env) works
              (rw new unlocked)
            ∙ rw absent refl;
        is_started_again =
            initialize-build next next_url password left v works_next unlocked_again
            ∙ rw present refl;
        same_key = refl;
        same_vault = refl;
        same_device = device_id_of-again env next here.device_id id_filled;
        same_file = refl;
      }
