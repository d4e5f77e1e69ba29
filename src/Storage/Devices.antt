-- ===== src/Storage/Devices.antt =====
-- src/storage/Repositories.cpp, `SqlDevicesRepository`.
pub mod Identity
use vox_desktop.Base.{
  ℕ, Bool, false, true, String, string_eq, ◌==◌, Bytes, List, [], ltb, value_or, map, if◌then◌else◌,
}
use vox_desktop.Base.Dict.{Dict}
use vox_desktop.Domain.{Device, unknown}
use vox_desktop.Domain.Names.{trust_level_to_string, trust_level_from_string}
use vox_desktop.Storage.Table.{rows, upsert, keep, order_by}

pub record DeviceRow : Type 0 where
  pub device_id : String
  pub user_id : String
  pub server_id : String
  pub label : String
  pub identity_sign_pub : Bytes
  pub identity_dh_pub : Bytes
  pub signed_prekey_pub : Bytes
  pub signed_prekey_id : ℕ
  pub signed_prekey_sig : Bytes
  pub last_seen_ms : ℕ
  pub trust_state : String

abbrev pub DevicesTable : Type 0
DevicesTable = Dict String DeviceRow

abbrev pub device_row : Device → DeviceRow
device_row d = record {
  device_id = d.device_id;
  user_id = d.user_id;
  server_id = d.server_id;
  label = d.label;
  identity_sign_pub = d.identity_sign_pub;
  identity_dh_pub = d.identity_dh_pub;
  signed_prekey_pub = [];
  signed_prekey_id = 0;
  signed_prekey_sig = [];
  last_seen_ms = d.last_seen;
  trust_state = trust_level_to_string d.trust_level;
}

abbrev pub set_device : DeviceRow → DeviceRow → DeviceRow
set_device old excluded = record old {
  label = excluded.label;
  last_seen_ms = excluded.last_seen_ms;
  trust_state = excluded.trust_state;
}

unfoldable pub upsert_device : Bool → Device → DevicesTable → Bool × DevicesTable
upsert_device runs d t =
    if runs then (true, upsert set_device t d.device_id (device_row d)) else (false, t)

abbrev pub device_of : DeviceRow → Device
device_of r = record {
  device_id = r.device_id;
  user_id = r.user_id;
  server_id = r.server_id;
  label = r.label;
  identity_sign_pub = r.identity_sign_pub;
  identity_dh_pub = r.identity_dh_pub;
  trust_level = value_or (trust_level_from_string r.trust_state) unknown;
  last_seen = r.last_seen_ms;
}

abbrev pub seen_later : DeviceRow → DeviceRow → Bool
seen_later a b = ltb b.last_seen_ms a.last_seen_ms

unfoldable pub list_devices_by_user : Bool → String → DevicesTable → List Device
list_devices_by_user runs user_id t =
    if runs
    then map device_of
        (order_by seen_later (keep (λ (r : DeviceRow). r.user_id == user_id) (rows t)))
    else []
