-- ===== src/Crypto/Fingerprint.antt =====
-- src/crypto/FingerprintService.cpp. A text is the codes of its characters; `to_hex` is
-- QByteArray::toHex, and `to_upper` is QChar::toUpper.
pub mod Grouping
use vox_desktop.Base.{
  ℕ, ◌+◌, ◌%◌, Bool, true, not, ◌&&◌, Bytes, [], ◌∷◌, ◌++◌, is_empty, nat_beq, if◌then◌else◌,
}
use vox_desktop.Crypto.Sodium.{Sodium}
use vox_desktop.Crypto.Helpers.{sha256}

pub record HexText : Type 0 where
  pub to_hex : Bytes → Bytes
  pub to_upper : ℕ → ℕ

-- The loop from an index on, over the digits that are left.
unfoldable pub group_digits : (ℕ → ℕ) → ℕ → Bytes → Bytes
group_digits to_upper i [] = []
group_digits to_upper i (c ∷ digest) =
    let rest = group_digits to_upper (i + 1) digest in
    if nat_beq ((i + 1) % 4) 0 && not (is_empty digest)
    then to_upper c ∷ b':' ∷ rest
    else to_upper c ∷ rest

unfoldable pub fingerprint : Sodium → HexText → Bytes → Bytes → Bytes
fingerprint lib hex signing_public_key dh_public_key =
    group_digits hex.to_upper 0 (hex.to_hex (sha256 lib (signing_public_key ++ dh_public_key)))
