-- ===== src/Crypto/Identity.antt =====
-- src/crypto/IdentityKeyStore.cpp: the long-term key pairs, as four secrets of the vault.
pub mod Keys
use vox_desktop.Base.{
  ℕ, suc, String, Bool, true, false, not, ◌||◌, Bytes, Option, none, some, List, [], ◌∷◌, has_value,
  if◌then◌else◌,
}
use vox_desktop.Qt.{Qt}
use vox_desktop.Crypto.Sodium.{Sodium, Draw}
use vox_desktop.Crypto.Vault.{VaultService, Disk, load_secret, store_secret}

pub record IdentityKeys : Type 0 where
  pub signing_public : Bytes
  pub signing_private : Bytes
  pub dh_public : Bytes
  pub dh_private : Bytes

-- What `crypto_sign_keypair` and `crypto_kx_keypair` write when they succeed.
pub record KeyPair : Type 0 where
  pub public : Bytes
  pub private : Bytes

-- `storeSecret` of several secrets, joined by `&&`: the first that fails is the last that is tried.
-- The calls draw and write in turn.
unfoldable pub store_secrets :
    Qt
    → Sodium
    → (ℕ → Draw)
    → (ℕ → Disk)
    → List (String × Bytes)
    → VaultService
    → Bool × VaultService
store_secrets qt lib draws disks [] v = (true, v)
store_secrets qt lib draws disks ((name, secret) ∷ rest) v =
    let (stored, v') = store_secret qt lib (draws 0) (disks 0) v name secret in
    let others = store_secrets qt lib (λ n. draws (suc n)) (λ n. disks (suc n)) rest v' in
    if stored then others else (false, v')

abbrev pub keys_of : Option Bytes → Option Bytes → Option Bytes → Option Bytes → Option IdentityKeys
keys_of (some sign_pub) (some sign_priv) (some dh_pub) (some dh_priv) = some (record {
  signing_public = sign_pub;
  signing_private = sign_priv;
  dh_public = dh_pub;
  dh_private = dh_priv;
})
keys_of _ _ _ _ = none

unfoldable pub identity_keys : VaultService → Option IdentityKeys
identity_keys v =
    keys_of (load_secret v "identity_sign_pub") (load_secret v "identity_sign_priv")
      (load_secret v "identity_dh_pub") (load_secret v "identity_dh_priv")

abbrev pub identity_secrets : KeyPair → KeyPair → List (String × Bytes)
identity_secrets sign dh =
    ("identity_sign_pub", sign.public)
    ∷ ("identity_sign_priv", sign.private)
    ∷ ("identity_dh_pub", dh.public)
    ∷ ("identity_dh_priv", dh.private)
    ∷ []

-- The end of `ensureIdentityKeys`, over what the two generators return.
abbrev pub store_pairs :
    Qt
    → Sodium
    → (ℕ → Draw)
    → (ℕ → Disk)
    → Option KeyPair
    → Option KeyPair
    → VaultService
    → Bool × VaultService
store_pairs qt lib draws disks none _ v = (false, v)
store_pairs qt lib draws disks (some sign) none v = (false, v)
store_pairs qt lib draws disks (some sign) (some dh) v =
    store_secrets qt lib draws disks (identity_secrets sign dh) v

unfoldable pub ensure_identity_keys :
    Qt
    → Sodium
    → (ℕ → Draw)
    → (ℕ → Disk)
    → Option KeyPair
    → Option KeyPair
    → VaultService
    → Bool × VaultService
ensure_identity_keys qt lib draws disks sign dh v =
    if not v.unlocked || not lib.init_ok
    then (false, v)
    else if has_value (identity_keys v)
    then (true, v)
    else store_pairs qt lib draws disks sign dh v
