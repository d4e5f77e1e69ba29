-- ===== src/Crypto/Hkdf.antt =====
-- src/crypto/HkdfSha256.cpp.
pub mod Rfc5869
use vox_desktop.Base.{
  ℕ, zero, suc, ◌+◌, ◌%◌, Bool, Option, none, some, Bytes, length, [], ◌∷◌, ◌++◌, is_empty, take,
  replicate, ltb, nat_beq, if◌then◌else◌,
}
use vox_desktop.Base.Int.{ℤ, pos, negsuc}
use vox_desktop.Crypto.Sodium.{Sodium, sha256_bytes}
use vox_desktop.Crypto.Helpers.{hmac_sha256}

module _ (lib : Sodium) where
  -- One round for each block, from T(counter - 1) and the output so far; the counter is one byte.
  -- The outer `none` means that the fuel ran out.
  unfoldable pub expand : ℕ → Bytes → Bytes → ℕ → Bytes → ℕ → Bytes → Option Bytes
  expand zero prk info output_len t counter out = none
  expand (suc fuel) prk info output_len t counter out =
      let t' = hmac_sha256 lib prk (t ++ (info ++ counter ∷ [])) in
      let next = (counter + 1) % 256 in
      let rest = expand fuel prk info output_len t' next (out ++ t') in
      if ltb (length out) output_len
      then (if is_empty t' then some [] else if nat_beq next 0 then some [] else rest)
      else some (take output_len out)

  -- 256 rounds: the counter starts at 1 and a round that brings it back to 0 is the last.
  unfoldable pub expanded : Bytes → Bytes → ℕ → Bytes
  unfolding expand
  expanded prk info output_len =
      if is_empty prk
      then []
      else elim (expand 256 prk info output_len [] 1 []) [ none ↦ [] | some out ↦ out ]

  unfoldable pub hkdf_sha256 : Bytes → Bytes → Bytes → ℤ → Bytes
  unfolding expanded
  hkdf_sha256 ikm salt info (negsuc output_len) = []
  hkdf_sha256 ikm salt info (pos zero) = []
  hkdf_sha256 ikm salt info (pos output_len) =
      if is_empty ikm
      then []
      else let normalized_salt = if is_empty salt then replicate sha256_bytes 0 else salt in
        expanded (hmac_sha256 lib normalized_salt ikm) info output_len
