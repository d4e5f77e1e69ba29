-- ===== src/Checks/Startup.antt =====
-- The theorem on two starts of the application at a concrete input.
use vox_desktop.Base.{◌≡◌, refl, true, false, length, none, []}
use vox_desktop.Base.Dict.{lookup, insert}
use vox_desktop.Crypto.Helpers.{argon2id_kdf}
use vox_desktop.Crypto.Vault.{derive_key}
use vox_desktop.Storage.Migrations.{
  connected, current_version, exec, exec_all, transaction, commit, upgrade, run,
}
use vox_desktop.App.Startup.{Installation, StartEnv}
use vox_desktop.App.Startup.Kept.{IsWorking, IsNewVault, IsSame, initialize_again}
use vox_desktop.Checks.Library.{sodium, sodium_laws, counting, counting-IsDraw, qt, qt_laws}
use vox_desktop.Checks.Vault.{working}

abbrev first : StartEnv
first = record {
  dir_exists = false;
  dir_made = true;
  draw_salt = counting 1;
  draw_nonce = counting 2;
  vault_disk = working;
  database_opens = true;
  database_error = "";
  migration = record { runs = λ statement. true; starts = true; rolls_back = true; commits = true };
  migration_error = "";
  files_ready = true;
  new_device_id = "d1";
  seed_draw = counting 3;
  key_draw = counting 4;
  key_disk = working;
}

abbrev next : StartEnv
next = record first { dir_exists = true; new_device_id = "d2"; seed_draw = counting 8 }

abbrev empty_device : Installation
empty_device = record {
  vault_file = none;
  schema = record { tables = []; version = none };
  accounts = [];
  device_id = "";
}

derived-size : length (derive_key qt sodium "pw" (counting 1 16)) ≡ 32
unfolding derive_key argon2id_kdf
derived-size = refl

vault-IsNewVault : IsNewVault qt qt_laws sodium sodium_laws "pw" first next
vault-IsNewVault = record {
  password_filled = refl;
  salt = counting-IsDraw 1;
  nonce = counting-IsDraw 2;
  seed = counting-IsDraw 3;
  key_nonce = counting-IsDraw 4;
  derived = derived-size;
  vault_saves = refl;
  key_saves = refl;
  reads = refl;
}

first-IsWorking : IsWorking first empty_device.schema
unfolding run upgrade transaction commit exec exec_all lookup insert current_version
first-IsWorking = record { directory = refl; database = refl; migrates = refl; files = refl }

next-IsWorking : IsWorking next (run first.migration (connected empty_device.schema)).1.stored
unfolding run upgrade transaction commit exec exec_all lookup insert current_version
next-IsWorking = record { directory = refl; database = refl; migrates = refl; files = refl }

initialize_again_example :
    IsSame qt qt_laws sodium sodium_laws first next "https://vox" "https://vox2" "pw" empty_device
initialize_again_example =
    initialize_again qt qt_laws sodium sodium_laws "https://vox" "https://vox2" "pw" first next
      empty_device refl vault-IsNewVault refl first-IsWorking next-IsWorking
