-- ===== src/Crypto/Hkdf/Rfc5869.antt =====
-- HKDF-Expand as RFC 5869 states it, and src/crypto/HkdfSha256.cpp against it.
use vox_desktop.Base.{
  ℕ, zero, suc, ◌+◌, ◌*◌, ◌/◌, ◌≤◌, ◌<◌, ◌≡◌, ◌∙◌, refl, inl, inr, Bool-cases, false, some, Bytes,
  length, length-append, length-take, [], ◌∷◌, ◌++◌, is_empty, is_empty-false, take, replicate, ltb,
  if◌then◌else◌, arith,
}
use vox_desktop.Base.Int.{pos}
use vox_desktop.Crypto.Sodium.{Sodium, SodiumLaws}
use vox_desktop.Crypto.Helpers.{hmac_sha256}
use vox_desktop.Crypto.Helpers.Guards.{hmac_sha256-eq}
use vox_desktop.Crypto.Hkdf.{expand, expanded, hkdf_sha256}

module _ (lib : Sodium) (prk info : Bytes) where
  -- T(0) is empty, and T(n) = HMAC(PRK, T(n - 1) | info | n).
  abbrev pub block : ℕ → Bytes
  block zero = []
  block (suc n) = lib.auth_hmacsha256 prk (block n ++ (info ++ suc n ∷ []))

  -- T(1) | ... | T(n)
  abbrev pub blocks : ℕ → Bytes
  blocks zero = []
  blocks (suc n) = blocks n ++ block (suc n)

module _ (lib : Sodium) (laws : SodiumLaws lib) (prk info : Bytes)
    (keyed : is_empty prk ≡ false) where
  length-blocks : (n : ℕ) → length (blocks lib prk info n) ≡ 32 * n
  length-blocks zero = omega arith
  length-blocks (suc n) = omega (
    arith,
    length-blocks n,
    length-append (blocks lib prk info n) (block lib prk info (suc n)),
    laws.hmac_size prk (block lib prk info n ++ (info ++ suc n ∷ [])),
  )

  -- A round that is not the last: the loop goes on from the next block.
  expand-round :
      (fuel n size : ℕ)
      → 32 * n < size
      → n < 254
      → expand lib (suc fuel) prk info size (block lib prk info n) (suc n) (blocks lib prk info n)
        ≡ expand lib fuel prk info size
            (block lib prk info (suc n))
            (suc (suc n))
            (blocks lib prk info (suc n))
  unfolding expand
  expand-round fuel n size h k = ground (
    arith,
    length-blocks n,
    hmac_sha256-eq lib laws prk (block lib prk info n ++ (info ++ suc n ∷ [])) keyed,
    is_empty-false (block lib prk info (suc n)),
    laws.hmac_size prk (block lib prk info n ++ (info ++ suc n ∷ [])),
  )

  expand-done :
      (fuel n size : ℕ)
      → size ≤ 32 * n
      → expand lib (suc fuel) prk info size (block lib prk info n) (suc n) (blocks lib prk info n)
        ≡ some (take size (blocks lib prk info n))
  unfolding expand
  expand-done fuel n size h = ground (arith, length-blocks n)

  -- At the last value of the counter byte the loop gives up, after the block is computed.
  expand-exhausted :
      (fuel size : ℕ)
      → 8128 < size
      → expand lib (suc fuel) prk info size (block lib prk info 254) 255 (blocks lib prk info 254)
        ≡ some []
  unfolding expand
  expand-exhausted fuel size h =
      let t = block lib prk info 254 in
      ground (
        arith,
        length-blocks 254,
        hmac_sha256-eq lib laws prk (t ++ (info ++ 255 ∷ [])) keyed,
        is_empty-false (lib.auth_hmacsha256 prk (t ++ (info ++ 255 ∷ []))),
        laws.hmac_size prk (t ++ (info ++ 255 ∷ [])),
      )

  expand-eq-blocks :
      (fuel n count size : ℕ)
      → n ≤ count
      → count ≤ 254
      → size ≤ 32 * count
      → 32 * count < size + 32
      → count < n + fuel
      → expand lib fuel prk info size (block lib prk info n) (suc n) (blocks lib prk info n)
        ≡ some (take size (blocks lib prk info count))
  expand-eq-blocks zero n count size a b c d e = absurd (omega arith)
  expand-eq-blocks (suc fuel) n count size a b c d e = elim (Bool-cases (ltb n count)) [
    | inl more ↦
        expand-round fuel n size (ground arith) (ground arith)
        ∙ expand-eq-blocks fuel (suc n) count size (ground arith) b c d (omega arith)
    | inr last ↦ let same : n ≡ count = ground arith in rw same (expand-done fuel count size c)
  ]

  expand_too_long :
      (fuel n size : ℕ)
      → n ≤ 254
      → 8128 < size
      → 254 < n + fuel
      → expand lib fuel prk info size (block lib prk info n) (suc n) (blocks lib prk info n)
        ≡ some []
  expand_too_long zero n size a b c = absurd (omega arith)
  expand_too_long (suc fuel) n size a b c = elim (Bool-cases (ltb n 254)) [
    | inl more ↦
        expand-round fuel n size (ground arith) (ground arith)
        ∙ expand_too_long fuel (suc n) size (ground arith) b (omega arith)
    | inr last ↦ let same : n ≡ 254 = ground arith in rw same (expand-exhausted fuel size b)
  ]

  expanded-eq-blocks :
      (size : ℕ)
      → size ≤ 8128
      → expanded lib prk info size ≡ take size (blocks lib prk info ((size + 31) / 32))
  unfolding expanded
  expanded-eq-blocks size h =
      let count = (size + 31) / 32 in
      let loop =
        expand-eq-blocks 256 0 count size (omega arith) (omega arith) (omega arith) (omega arith)
          (omega arith) in
      rw (keyed, loop)

  expanded_too_long : (size : ℕ) → 8128 < size → expanded lib prk info size ≡ []
  unfolding expanded
  expanded_too_long size h = rw (keyed, expand_too_long 256 0 size (omega arith) h (omega arith))

module _ (lib : Sodium) (laws : SodiumLaws lib) where
  -- The pseudorandom key of HKDF-Extract, with the salt of 32 zero bytes for an empty one.
  abbrev pub extract : Bytes → Bytes → Bytes
  extract salt ikm = lib.auth_hmacsha256 (if is_empty salt then replicate 32 0 else salt) ikm

  prk-eq-extract :
      (ikm salt : Bytes)
      → hmac_sha256 lib (if is_empty salt then replicate 32 0 else salt) ikm ≡ extract salt ikm
  prk-eq-extract ikm [] = hmac_sha256-eq lib laws (replicate 32 0) ikm refl
  prk-eq-extract ikm (b ∷ salt) = hmac_sha256-eq lib laws (b ∷ salt) ikm refl

  extract-keyed : (ikm salt : Bytes) → is_empty (extract salt ikm) ≡ false
  extract-keyed ikm salt =
      is_empty-false (extract salt ikm)
        (omega (arith, laws.hmac_size (if is_empty salt then replicate 32 0 else salt) ikm))

  -- Where libsodium keeps its laws, and for a length from 1 to 8128 and non-empty input key
  -- material, `hkdfSha256` is the prefix of that length of T(1) | T(2) | ... of RFC 5869, under the
  -- key that HKDF-Extract gives.
  pub hkdf_sha256-eq-rfc5869 :
      (ikm salt info : Bytes) (size : ℕ)
      → is_empty ikm ≡ false
      → 0 < size
      → size ≤ 8128
      → hkdf_sha256 lib ikm salt info (pos size)
        ≡ take size (blocks lib (extract salt ikm) info ((size + 31) / 32))
  unfolding hkdf_sha256
  hkdf_sha256-eq-rfc5869 ikm salt info zero h a b = absurd (omega arith)
  hkdf_sha256-eq-rfc5869 ikm salt info (suc size) h a b =
      rw (h, prk-eq-extract ikm salt)
        (expanded-eq-blocks lib laws (extract salt ikm) info (extract-keyed ikm salt) (suc size) b)

  -- Where libsodium keeps its laws, every length above 8128 gives the empty array, also those up to
  -- 255 blocks (8160 bytes) that RFC 5869 allows.
  hkdf_sha256_too_long :
      (ikm salt info : Bytes) (size : ℕ)
      → 8128 < size
      → hkdf_sha256 lib ikm salt info (pos size) ≡ []
  unfolding hkdf_sha256
  hkdf_sha256_too_long ikm salt info zero h = absurd (omega arith)
  hkdf_sha256_too_long [] salt info (suc size) h = refl
  hkdf_sha256_too_long (b ∷ ikm) salt info (suc size) h = rw (prk-eq-extract (b ∷ ikm) salt) (
      expanded_too_long lib laws (extract salt (b ∷ ikm)) info (extract-keyed (b ∷ ikm) salt)
        (suc size) h)

  -- Where libsodium keeps its laws, a length from 1 to 8128 is the length of the result.
  pub length-hkdf_sha256 :
      (ikm salt info : Bytes) (size : ℕ)
      → is_empty ikm ≡ false
      → 0 < size
      → size ≤ 8128
      → length (hkdf_sha256 lib ikm salt info (pos size)) ≡ size
  length-hkdf_sha256 ikm salt info size h a b =
      let prk = extract salt ikm in
      let count = (size + 31) / 32 in
      rw (hkdf_sha256-eq-rfc5869 ikm salt info size h a b) (
        omega (
          arith,
          length-take size (blocks lib prk info count),
          length-blocks lib laws prk info (extract-keyed ikm salt) count,
        ))
