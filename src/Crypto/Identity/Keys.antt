-- ===== src/Crypto/Identity/Keys.antt =====
-- src/crypto/IdentityKeyStore.cpp: identity keys are made once and then kept.
use vox_desktop.Base.{
  ℕ, suc, ◌≡◌, ◌∙◌, refl, ap, String, string_eq, true, false, not, ◌||◌, ◌&&◌, Option-cases, inl,
  inr, Bytes, is_empty, text_is_empty, some, value_or, List, [], ◌∷◌, arith,
}
use vox_desktop.Base.Dict.{Dict, lookup, insert, dict_laws}
use vox_desktop.Qt.{Qt, QtLaws}
use vox_desktop.Crypto.Sodium.{Sodium, SodiumLaws, Draw, IsDraw}
use vox_desktop.Crypto.Vault.{VaultService, Disk, store_secret}
use vox_desktop.Crypto.Vault.Reopen.{IsOpen}
use vox_desktop.Crypto.Vault.Durability.{store_secret-IsOpen, load_secret-eq}
use vox_desktop.Crypto.Identity.{
  IdentityKeys, KeyPair, store_secrets, keys_of, identity_keys, identity_secrets,
  ensure_identity_keys,
}

-- Names and secrets that the vault takes.
abbrev pub AllFilled : List (String × Bytes) → Type 0
AllFilled [] = Unit
AllFilled ((name, secret) ∷ rest) =
    (text_is_empty name ≡ false) × (is_empty secret ≡ false) × AllFilled rest

abbrev pub insert_all : List (String × Bytes) → Dict String Bytes → Dict String Bytes
insert_all [] m = m
insert_all ((name, secret) ∷ rest) m = insert_all rest (insert m name secret)

-- Every save of a run of calls succeeds, with random bytes of the right size.
pub record AreSaves (draws : ℕ → Draw) (disks : ℕ → Disk) : Type 0 where
  pub drawn : (n : ℕ) → IsDraw (draws n)
  pub kept : (n : ℕ) → (disks n).opens_write && (disks n).commits ≡ true

AreSaves-next :
    (draws : ℕ → Draw) (disks : ℕ → Disk)
    → AreSaves draws disks
    → AreSaves (λ n. draws (suc n)) (λ n. disks (suc n))
AreSaves-next draws disks s = record { drawn = λ n. s.drawn (suc n); kept = λ n. s.kept (suc n) }

abbrev pub pair_keys : KeyPair → KeyPair → IdentityKeys
pair_keys sign dh = record {
  signing_public = sign.public;
  signing_private = sign.private;
  dh_public = dh.public;
  dh_private = dh.private;
}

module _ (qt : Qt) (qt_laws : QtLaws qt) (lib : Sodium) (laws : SodiumLaws lib) where
  store_secrets-IsOpen :
      (password : String) (draws : ℕ → Draw) (disks : ℕ → Disk) (l : List (String × Bytes))
      (v : VaultService)
      → IsOpen qt qt_laws lib laws password v
      → AreSaves draws disks
      → AllFilled l
      → let (stored, v') = store_secrets qt lib draws disks l v in
        (stored ≡ true)
        × IsOpen qt qt_laws lib laws password v'
        × (v'.secrets ≡ insert_all l v.secrets)
  unfolding store_secrets
  store_secrets-IsOpen password draws disks [] v o s f = (refl, o, refl)
  store_secrets-IsOpen password draws disks ((name, secret) ∷ rest) v o s f =
      let (o', secrets, stored) =
        store_secret-IsOpen qt qt_laws lib laws password (draws 0) (disks 0) v name secret o
          (s.drawn 0) f.0 f.1 in
      let yes' : (store_secret qt lib (draws 0) (disks 0) v name secret).0 ≡ true =
        stored ∙ s.kept 0 in
      let (all, o'', same) =
        store_secrets-IsOpen password (λ n. draws (suc n)) (λ n. disks (suc n)) rest
          (store_secret qt lib (draws 0) (disks 0) v name secret).1 o' (AreSaves-next draws disks s)
          f.2 in
      rw yes' (all, o'', same ∙ ap (insert_all rest) secrets)

  identity_keys-eq :
      (password : String) (v : VaultService)
      → IsOpen qt qt_laws lib laws password v
      → identity_keys v
        ≡ keys_of
            (lookup v.secrets "identity_sign_pub")
            (lookup v.secrets "identity_sign_priv")
            (lookup v.secrets "identity_dh_pub")
            (lookup v.secrets "identity_dh_priv")
  unfolding identity_keys
  identity_keys-eq password v o =
      rw
        (
          load_secret-eq qt qt_laws lib laws password v "identity_sign_pub" o refl,
          load_secret-eq qt qt_laws lib laws password v "identity_sign_priv" o refl,
          load_secret-eq qt qt_laws lib laws password v "identity_dh_pub" o refl,
          load_secret-eq qt qt_laws lib laws password v "identity_dh_priv" o refl,
        )
        refl

  -- Where libsodium and Qt keep their laws: on an open vault with a disk that takes every save, and
  -- with generators that return keys which are not empty, `ensureIdentityKeys` returns true and
  -- keeps the vault open; the identity keys are then the ones that were there, and the new pairs if
  -- there were none.
  pub ensure_identity_keys-keeps :
      (password : String) (draws : ℕ → Draw) (disks : ℕ → Disk) (sign dh : KeyPair)
      (v : VaultService)
      → IsOpen qt qt_laws lib laws password v
      → AreSaves draws disks
      → AllFilled (identity_secrets sign dh)
      → let (done, v') = ensure_identity_keys qt lib draws disks (some sign) (some dh) v in
        (done ≡ true)
        × IsOpen qt qt_laws lib laws password v'
        × (identity_keys v' ≡ some (value_or (identity_keys v) (pair_keys sign dh)))
  unfolding ensure_identity_keys
  ensure_identity_keys-keeps password draws disks sign dh v o s f =
      let guard : (not v.unlocked || not lib.init_ok) ≡ false =
        ground (arith, o.is_unlocked, laws.ready) in
      elim (Option-cases (identity_keys v)) [
        | inr (keys, there) ↦ rw (guard, there) (refl, o, there)
        | inl absent ↦
            let (stored, o', secrets) =
              store_secrets-IsOpen password draws disks (identity_secrets sign dh) v o s f in
            rw (guard, absent)
              (stored, o', identity_keys-eq password _ o' ∙ rw secrets (simp dict_laws))
      ]
