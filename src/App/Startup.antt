-- ===== src/App/Startup.antt =====
-- src/app/ServiceLocator.cpp: the services are built over what is installed on the device.
pub mod Kept
use Prim.Native.String.{◌++◌ as append_text}
use vox_desktop.Base.{
  String, Bool, true, false, not, ◌||◌, Bytes, codes, Option, none, some, text_is_empty,
  if◌then◌else◌,
}
use vox_desktop.Base.Int.{ℤ, pos}
use vox_desktop.Qt.{Qt}
use vox_desktop.Crypto.Sodium.{Sodium, Draw}
use vox_desktop.Crypto.Helpers.{random_bytes}
use vox_desktop.Crypto.Hkdf.{hkdf_sha256}
use vox_desktop.Crypto.Vault.{
  VaultService, Disk, closed, unlock_with_password, load_secret, store_secret,
}
use vox_desktop.Storage.Accounts.{AccountsTable}
use vox_desktop.Storage.Migrations.{DatabaseSchema, MigrationEnv, connected, run}
use vox_desktop.Network.Access.{new_network_access}
use vox_desktop.Services.Auth.{AuthService}
use vox_desktop.Services.Notification.{NotificationService}

-- What stays on the device between two starts: the vault's file, the database, and the setting
-- "vox/device_id", empty while there is none.
pub record Installation : Type 0 where
  pub vault_file : Option Bytes
  pub schema : DatabaseSchema
  pub accounts : AccountsTable
  pub device_id : String

-- What happens around a start: the directory, the vault's and the search key's randomness and
-- saves, the database, the file store, and a new UUID.
pub record StartEnv : Type 0 where
  pub dir_exists : Bool
  pub dir_made : Bool
  pub draw_salt : Draw
  pub draw_nonce : Draw
  pub vault_disk : Disk
  pub database_opens : Bool
  pub database_error : String
  pub migration : MigrationEnv
  pub migration_error : String
  pub files_ready : Bool
  pub new_device_id : String
  pub seed_draw : Draw
  pub key_draw : Draw
  pub key_disk : Disk

-- The services that have a state of their own, and the key of the search service.
pub record ServiceLocator : Type 0 where
  pub auth_service : AuthService
  pub search_index_key : Bytes
  pub notification_service : NotificationService

-- How `initialize` ends: with `*error`, or with the services; and what is installed then.
pub data Start : Type 0 where
  failed : String → Installation → Start
  started : ServiceLocator → Installation → Start

abbrev pub cha_cha20_key_bytes : ℤ
cha_cha20_key_bytes = pos 32

abbrev pub device_id_of : StartEnv → String → String
device_id_of env device_id = if text_is_empty device_id then env.new_device_id else device_id

abbrev pub services_with : StartEnv → String → VaultService → Bytes → Installation → ServiceLocator
services_with env server_base_url vault key here = record {
  auth_service = record {
    context = none;
    network = new_network_access server_base_url;
    accounts = here.accounts;
    vault = vault;
    prekeys = record { next_signed_prekey_id = pos 1 };
    server_id = "default";
    device_id = device_id_of env here.device_id;
  };
  search_index_key = key;
  notification_service = record { show_previews = false };
}

module _ (qt : Qt) (lib : Sodium) where
  -- The seed of a new search key, and the key.
  unfoldable pub new_search_key : StartEnv → Bytes
  new_search_key env =
      let seed = random_bytes lib env.seed_draw cha_cha20_key_bytes in
      hkdf_sha256 lib seed (codes "vox-search") (codes "vox/search-index-key") cha_cha20_key_bytes

  -- The search key and the vault with it. Whether the vault stores a new one is not looked at.
  abbrev pub search_key : StartEnv → VaultService → Option Bytes → Bytes × VaultService
  search_key env vault (some key) = (key, vault)
  search_key env vault none = (
    new_search_key env,
    (store_secret qt lib env.key_draw env.key_disk vault "search_index_key" (new_search_key env)).1,
  )

  -- From the file store on.
  unfoldable pub build : StartEnv → String → VaultService → Installation → Start
  build env server_base_url vault here =
      let (key, vault') = search_key env vault (load_secret vault "search_index_key") in
      started (services_with env server_base_url vault' key here)
        (record here { vault_file = vault'.file; device_id = device_id_of env here.device_id })

  unfoldable pub initialize : StartEnv → String → String → Installation → Start
  initialize env server_base_url vault_password here =
      let (unlocked, vault) =
        unlock_with_password qt lib env.draw_salt env.draw_nonce env.vault_disk vault_password
          (closed here.vault_file) in
      let with_vault = record here { vault_file = vault.file } in
      let (migrated, connection) = run env.migration (connected here.schema) in
      let with_schema = record with_vault { schema = connection.stored } in
      if not (env.dir_exists || env.dir_made)
      then failed "Failed to create app data directory" here
      else if not unlocked
      then failed "Failed to unlock local vault" with_vault
      else if not env.database_opens
      then failed env.database_error with_vault
      else if not migrated
      then failed (append_text "Database migration failed: " env.migration_error) with_schema
      else if not env.files_ready
      then failed "Failed to initialize file storage" with_schema
      else build env server_base_url vault with_schema
