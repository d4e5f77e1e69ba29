-- ===== src/Crypto/Fingerprint/Grouping.antt =====
-- src/crypto/FingerprintService.cpp: the groups of a fingerprint lose nothing of the digest.
use vox_desktop.Base.{
  ℕ, ◌+◌, ◌*◌, ◌/◌, ◌%◌, ◌-◌, ◌≡◌, ◌≢◌, ◌∙◌, refl, sym, ap, Bool-cases, inl, inr, Bytes, [], ◌∷◌,
  ◌++◌, length, nat_beq, if◌then◌else◌, arith,
}
use vox_desktop.Crypto.Sodium.{Sodium, SodiumLaws}
use vox_desktop.Crypto.Helpers.{sha256}
use vox_desktop.Crypto.Fingerprint.{HexText, group_digits, fingerprint}

-- The text without its colons.
abbrev pub digits_of : Bytes → Bytes
digits_of [] = []
digits_of (c ∷ cs) = let rest = digits_of cs in if nat_beq c b':' then rest else c ∷ rest

abbrev pub all_upper : (ℕ → ℕ) → Bytes → Bytes
all_upper to_upper [] = []
all_upper to_upper (c ∷ cs) = to_upper c ∷ all_upper to_upper cs

abbrev pub HasNoColon : Bytes → Type 0
HasNoColon [] = Unit
HasNoColon (c ∷ cs) = (c ≢ b':') × HasNoColon cs

digits_of-group_digits :
    (to_upper : ℕ → ℕ) (i : ℕ) (digest : Bytes)
    → HasNoColon (all_upper to_upper digest)
    → digits_of (group_digits to_upper i digest) ≡ all_upper to_upper digest
unfolding group_digits
digits_of-group_digits to_upper i [] h = refl
digits_of-group_digits to_upper i (c ∷ digest) h =
    let rest = digits_of-group_digits to_upper (i + 1) digest h.1 in ground (arith, rest, h.0)

length-group_digits :
    (to_upper : ℕ → ℕ) (i : ℕ) (c : ℕ) (digest : Bytes)
    → length (group_digits to_upper i (c ∷ digest))
      ≡ length digest + 1 + ((i + length digest) / 4 - i / 4)
unfolding group_digits
length-group_digits to_upper i c [] = ground arith
length-group_digits to_upper i c (d ∷ digest) =
    let ih = length-group_digits to_upper (i + 1) d digest in
    elim (Bool-cases (nat_beq ((i + 1) % 4) 0)) [
      | inl ends ↦ let full : (i + 1) % 4 ≡ 0 = ground arith in rw ends (omega (arith, ih, full))
      | inr inside ↦
          let part : (i + 1) % 4 ≢ 0 = λ e. absurd (ground arith) in
          rw inside (omega (arith, ih, part))
    ]

module _ (lib : Sodium) (laws : SodiumLaws lib) (hex : HexText) where
  -- What Qt documents of hexadecimal digits: two to a byte, none a colon in upper case, and upper
  -- case keeps them apart.
  pub record HexLaws : Type 0 where
    pub hex_size : (b : Bytes) → length (hex.to_hex b) ≡ 2 * length b
    pub no_colon : (b : Bytes) → HasNoColon (all_upper hex.to_upper (hex.to_hex b))
    pub readable :
        (a b : Bytes)
        → all_upper hex.to_upper (hex.to_hex a) ≡ all_upper hex.to_upper (hex.to_hex b)
        → a ≡ b

  length-sha256 : (m : Bytes) → length (sha256 lib m) ≡ 32
  unfolding sha256
  length-sha256 m = rw laws.ready (laws.sha256_size m)

  digits_of-fingerprint :
      HexLaws
      → (sign dh : Bytes)
      → digits_of (fingerprint lib hex sign dh)
        ≡ all_upper hex.to_upper (hex.to_hex (sha256 lib (sign ++ dh)))
  unfolding fingerprint
  digits_of-fingerprint h sign dh =
      digits_of-group_digits hex.to_upper 0 (hex.to_hex (sha256 lib (sign ++ dh)))
        (h.no_colon (sha256 lib (sign ++ dh)))

  length-grouped :
      (digits : Bytes) → length digits ≡ 64 → length (group_digits hex.to_upper 0 digits) ≡ 79
  length-grouped [] h = absurd (omega (arith, h))
  length-grouped (c ∷ digits) h =
      let size = length-group_digits hex.to_upper 0 c digits in
      let others : length digits ≡ 63 = omega (arith, h) in size ∙ rw others refl

  -- Where libsodium and Qt keep their laws: a fingerprint has 79 characters, and two pairs of keys
  -- with the same fingerprint have the same SHA-256 digest.
  pub fingerprint-same_digest :
      (sign dh sign2 dh2 : Bytes)
      → HexLaws
      → fingerprint lib hex sign dh ≡ fingerprint lib hex sign2 dh2
      → (length (fingerprint lib hex sign dh) ≡ 79)
        × (sha256 lib (sign ++ dh) ≡ sha256 lib (sign2 ++ dh2))
  fingerprint-same_digest sign dh sign2 dh2 h same =
      let digest = sha256 lib (sign ++ dh) in
      (
        unfold fingerprint in
            length-grouped (hex.to_hex digest)
              (h.hex_size digest ∙ ap (λ (n : ℕ). 2 * n) (length-sha256 (sign ++ dh))),
        h.readable digest (sha256 lib (sign2 ++ dh2)) (
            sym (digits_of-fingerprint h sign dh)
            ∙ ap digits_of same
            ∙ digits_of-fingerprint h sign2 dh2),
      )
