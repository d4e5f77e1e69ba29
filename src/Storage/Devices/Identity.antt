-- ===== src/Storage/Devices/Identity.antt =====
-- src/storage/Repositories.cpp: what `upsertDevice` never changes of a device that is stored.
use vox_desktop.Base.{
  ◌≡◌, ◌∙◌, refl, Bool, true, false, String, string_eq, ◌==◌, Bool-cases, inl, inr, List, [], ◌∷◌,
  some,
}
use vox_desktop.Base.Dict.{lookup}
use vox_desktop.Domain.{Device}
use vox_desktop.Storage.Table.Rows.{lookup-upsert}
use vox_desktop.Storage.Devices.{DeviceRow, DevicesTable, device_row, set_device, upsert_device}

-- A history of upserts, each with whether the engine runs it.
pub upsert_all : List (Bool × Device) → DevicesTable → DevicesTable
upsert_all [] t = t
upsert_all ((runs, d) ∷ history) t = upsert_all history (upsert_device runs d t).1

-- The columns that identify a device.
pub record SameIdentity (a b : DeviceRow) : Type 0 where
  pub device_id : a.device_id ≡ b.device_id
  pub user_id : a.user_id ≡ b.user_id
  pub server_id : a.server_id ≡ b.server_id
  pub identity_sign_pub : a.identity_sign_pub ≡ b.identity_sign_pub
  pub identity_dh_pub : a.identity_dh_pub ≡ b.identity_dh_pub

SameIdentity-refl : (r : DeviceRow) → SameIdentity r r
SameIdentity-refl r = record {
  device_id = refl;
  user_id = refl;
  server_id = refl;
  identity_sign_pub = refl;
  identity_dh_pub = refl;
}

upsert_device-row :
    (runs : Bool) (d : Device) (t : DevicesTable) (id : String) (old : DeviceRow)
    → lookup t id ≡ some old
    → (now : DeviceRow) × (lookup (upsert_device runs d t).1 id ≡ some now) × SameIdentity now old
unfolding upsert_device
upsert_device-row false d t id old h = (old, h, SameIdentity-refl old)
upsert_device-row true d t id old h = elim (Bool-cases (d.device_id == id)) [
  | inl same ↦
      let there : lookup t d.device_id ≡ some old =
        rw ((string_eq.beq_iff d.device_id id).0 same) h in
      (
        set_device old (device_row d),
        lookup-upsert set_device t d.device_id id (device_row d) ∙ rw (same, there) refl,
        record {
          device_id = refl;
          user_id = refl;
          server_id = refl;
          identity_sign_pub = refl;
          identity_dh_pub = refl;
        },
      )
  | inr other ↦ (
    old,
    lookup-upsert set_device t d.device_id id (device_row d) ∙ rw other h,
    SameIdentity-refl old,
  )
]

-- Whatever devices are upserted after a device was stored, under its id there is a row with the
-- same user, server and identity keys: a device's keys are those it was first stored with.
pub upsert_all-keeps_identity :
    (history : List (Bool × Device)) (t : DevicesTable) (id : String) (old : DeviceRow)
    → lookup t id ≡ some old
    → (now : DeviceRow) × (lookup (upsert_all history t) id ≡ some now) × SameIdentity now old
unfolding upsert_all
upsert_all-keeps_identity [] t id old h = (old, h, SameIdentity-refl old)
upsert_all-keeps_identity ((runs, d) ∷ history) t id old h =
    let (next, found, same) = upsert_device-row runs d t id old h in
    let (now, there, still) =
      upsert_all-keeps_identity history (upsert_device runs d t).1 id next found in
    (
      now,
      there,
      record {
        device_id = still.device_id ∙ same.device_id;
        user_id = still.user_id ∙ same.user_id;
        server_id = still.server_id ∙ same.server_id;
        identity_sign_pub = still.identity_sign_pub ∙ same.identity_sign_pub;
        identity_dh_pub = still.identity_dh_pub ∙ same.identity_dh_pub;
      },
    )
