-- ===== src/Crypto/X3dh.antt =====
-- src/crypto/X3dhSessionBuilder.cpp: the initiator's shared secret.
pub mod Agreement
use vox_desktop.Base.{
  Bool, true, false, not, ◌||◌, Option, none, some, Bytes, codes, length, ◌++◌, is_empty, nat_beq,
  if◌then◌else◌,
}
use vox_desktop.Base.Int.{pos}
use vox_desktop.Crypto.Sodium.{Sodium, chacha20_key_bytes}
use vox_desktop.Crypto.Helpers.{x25519}
use vox_desktop.Crypto.Hkdf.{hkdf_sha256}

pub record X3dhInput : Type 0 where
  pub our_identity_private : Bytes
  pub our_ephemeral_private : Bytes
  pub their_identity_public : Bytes
  pub their_signed_prekey_public : Bytes
  pub their_one_time_prekey_public : Option Bytes

module _ (lib : Sodium) where
  -- The end of the function, from the input key material on.
  unfoldable pub root_key_of : Bytes → Option Bytes
  root_key_of ikm =
      let root_key =
        hkdf_sha256 lib ikm (codes "vox-x3dh-salt") (codes "vox-e2ee-v1/x3dh")
          (pos chacha20_key_bytes) in
      if not (nat_beq (length root_key) chacha20_key_bytes) then none else some root_key

  unfoldable pub build_initial_shared_secret : X3dhInput → Option Bytes
  build_initial_shared_secret input =
      let dh1 = x25519 lib input.our_identity_private input.their_signed_prekey_public in
      let dh2 = x25519 lib input.our_ephemeral_private input.their_identity_public in
      let dh3 = x25519 lib input.our_ephemeral_private input.their_signed_prekey_public in
      if is_empty dh1 || is_empty dh2 || is_empty dh3
      then none
      else elim input.their_one_time_prekey_public [
        | none ↦ root_key_of (dh1 ++ (dh2 ++ dh3))
        | some one_time ↦
            let dh4 = x25519 lib input.our_ephemeral_private one_time in
            if is_empty dh4 then none else root_key_of (dh1 ++ (dh2 ++ (dh3 ++ dh4)))
      ]
