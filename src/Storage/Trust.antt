-- ===== src/Storage/Trust.antt =====
-- src/storage/Repositories.cpp, `SqlTrustRepository`.
pub mod Lookup
use vox_desktop.Base.{
  ℕ, Bool, false, true, String, string_eq, Bytes, Option, none, some, [], ltb, value_or,
  if◌then◌else◌,
}
use vox_desktop.Base.Dict.{Dict, lookup}
use vox_desktop.Domain.{DeviceFingerprint, unknown}
use vox_desktop.Domain.Names.{trust_level_to_string, trust_level_from_string}
use vox_desktop.Storage.Table.{upsert}

pub record TrustRow : Type 0 where
  pub device_id : String
  pub fingerprint : String
  pub trust_level : String
  pub verified_at_ms : ℕ
  pub note_ciphertext : Bytes

abbrev pub TrustTable : Type 0
TrustTable = Dict String TrustRow

abbrev pub trust_row : ℕ → DeviceFingerprint → TrustRow
trust_row now_ms trust = record {
  device_id = trust.device_id;
  fingerprint = trust.fingerprint;
  trust_level = trust_level_to_string trust.trust_level;
  verified_at_ms = if ltb 0 trust.verified_at_ms then trust.verified_at_ms else now_ms;
  note_ciphertext = [];
}

abbrev pub set_trust : TrustRow → TrustRow → TrustRow
set_trust old excluded = record old {
  fingerprint = excluded.fingerprint;
  trust_level = excluded.trust_level;
  verified_at_ms = excluded.verified_at_ms;
}

unfoldable pub upsert_trust : Bool → ℕ → DeviceFingerprint → TrustTable → Bool × TrustTable
upsert_trust runs now_ms trust t =
    if runs then (true, upsert set_trust t trust.device_id (trust_row now_ms trust)) else (false, t)

abbrev pub trust_of : TrustRow → DeviceFingerprint
trust_of r = record {
  device_id = r.device_id;
  fingerprint = r.fingerprint;
  trust_level = value_or (trust_level_from_string r.trust_level) unknown;
  verified_at_ms = r.verified_at_ms;
}

abbrev pub found_trust : Option TrustRow → Option DeviceFingerprint
found_trust none = none
found_trust (some r) = some (trust_of r)

unfoldable pub find_trust : Bool → String → TrustTable → Option DeviceFingerprint
find_trust runs device_id t = if runs then found_trust (lookup t device_id) else none
