-- ===== src/Storage/Trust/Lookup.antt =====
-- src/storage/Repositories.cpp: what `findTrust` returns after `upsertTrust`.
use vox_desktop.Base.{
  ℕ, ◌≡◌, ◌∙◌, refl, ap, true, String, string_eq, ◌==◌, Bool-cases, Option-cases, inl, inr, some,
  ltb, if◌then◌else◌,
}
use vox_desktop.Base.Dict.{lookup}
use vox_desktop.Domain.{DeviceFingerprint}
use vox_desktop.Domain.Names.Codec.{trust_level-round_trip}
use vox_desktop.Storage.Table.{merged}
use vox_desktop.Storage.Table.Rows.{IsTable, lookup-upsert, lookup-IsKeyed, upsert-IsTable}
use vox_desktop.Storage.Trust.{
  TrustRow, TrustTable, trust_row, set_trust, trust_of, found_trust, upsert_trust, find_trust,
}

abbrev pub IsTrust : TrustTable → Type 0
IsTrust t = IsTable (λ (r : TrustRow). r.device_id) t

-- The entry as it is stored: one without a time was verified now.
abbrev pub dated : ℕ → DeviceFingerprint → DeviceFingerprint
dated now_ms trust = record trust {
  verified_at_ms = if ltb 0 trust.verified_at_ms then trust.verified_at_ms else now_ms;
}

merged_trust :
    (now_ms : ℕ) (trust : DeviceFingerprint) (t : TrustTable)
    → IsTrust t
    → trust_of (merged set_trust (lookup t trust.device_id) (trust_row now_ms trust))
      ≡ dated now_ms trust
merged_trust now_ms trust t s = elim (Option-cases (lookup t trust.device_id)) [
  | inl absent ↦ rw (absent, trust_level-round_trip trust.trust_level) refl
  | inr (old, present) ↦
      let key : old.device_id ≡ trust.device_id =
        lookup-IsKeyed (λ (r : TrustRow). r.device_id) t trust.device_id old s.keyed present in
      rw present (rw (trust_level-round_trip trust.trust_level, key) refl)
]

-- In a table with each row once, under its key: after `upsertTrust` has run, `findTrust` returns
-- the entry for its device, with the present time if it had none, and for every other device what
-- it returned before.
find_trust-upsert :
    (now_ms : ℕ) (trust : DeviceFingerprint) (t : TrustTable) (id : String)
    → IsTrust t
    → let (done, t') = upsert_trust true now_ms trust t in
      (done ≡ true)
      × IsTrust t'
      × (find_trust true id t'
          ≡ (if trust.device_id == id then some (dated now_ms trust) else find_trust true id t))
unfolding upsert_trust find_trust
find_trust-upsert now_ms trust t id s = (
  refl,
  upsert-IsTable set_trust (λ (r : TrustRow). r.device_id) t (trust_row now_ms trust)
      (λ old new e. e) s,
  ap found_trust (lookup-upsert set_trust t trust.device_id id (trust_row now_ms trust))
      ∙ elim (Bool-cases (trust.device_id == id)) [
        | inl same ↦
            rw same (ap (λ (x : DeviceFingerprint). some x) (merged_trust now_ms trust t s))
        | inr other ↦ rw other refl
      ],
)
