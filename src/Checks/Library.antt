-- ===== src/Checks/Library.antt =====
-- Stand-ins for libsodium and Qt that keep their laws, simple enough to run: not secure, and not
-- what those libraries compute.
use vox_desktop.Base.{
  ℕ, zero, suc, ◌+◌, ◌-◌, ◌≡◌, refl, subst, Bool, true, false, Option, none, some, Bytes, length,
  length-append, length-take, length-replicate, take-append, drop-append, [], ◌∷◌, ◌++◌, take, drop,
  replicate, codes, nat_beq, ◌&&◌, if◌then◌else◌, arith,
}
use mathlib.Core.Option.{some-injective}
use vox_desktop.Base.Int.{ℤ, pos, negsuc}
use Prim.Native.String.{String, ◌++◌ as append_text}
use mathlib.Core.List.{List}
use vox_desktop.Qt.{Qt, QtLaws}
use vox_desktop.Checks.Text.{decode, decode-codes, to_unary, from_unary, unary_round_trip}
use vox_desktop.Checks.JsonText.{to_json, from_json, json_round_trip, json_filled}
use vox_desktop.Crypto.Sodium.{Sodium, SodiumLaws, Draw, IsDraw}
use vox_desktop.Crypto.X3dh.Agreement.{IsKeyAgreement}

abbrev bytes_beq : Bytes → Bytes → Bool
bytes_beq [] [] = true
bytes_beq (a ∷ xs) (b ∷ bs) = nat_beq a b && bytes_beq xs bs
bytes_beq _ _ = false

-- Cut or filled to a size.
abbrev pub sized : ℕ → Bytes → Bytes
sized n b = take n (b ++ replicate n 0)

length-sized : (n : ℕ) (b : Bytes) → length (sized n b) ≡ n
length-sized n b = omega (
  arith,
  length-take n (b ++ replicate n 0),
  length-append b (replicate n 0),
  length-replicate {A = ℕ} n 0,
)

abbrev tag : Bytes
tag = replicate 16 1

-- The text with a fixed tag behind it; opening checks the tag.
abbrev seal : Bytes → Bytes → Bytes → Bytes → Option Bytes
seal key nonce text ad = some (text ++ tag)

abbrev unseal : Bytes → Bytes → Bytes → Bytes → Option Bytes
unseal key nonce sealed ad =
    let n = length sealed - 16 in
    if bytes_beq (drop n sealed) tag then some (take n sealed) else none

unseal-seal : (key nonce text ad : Bytes) → unseal key nonce (text ++ tag) ad ≡ some text
unseal-seal key nonce text ad =
    let e : length (text ++ tag) - 16 ≡ length text = omega (arith, length-append text tag) in
    rw (e, drop-append (length text) text tag refl, take-append (length text) text tag refl) refl

abbrev add_bytes : Bytes → Bytes → Bytes
add_bytes [] bs = bs
add_bytes xs [] = xs
add_bytes (a ∷ xs) (b ∷ bs) = (a + b) ∷ add_bytes xs bs

add_bytes_comm : (xs bs : Bytes) → add_bytes xs bs ≡ add_bytes bs xs
add_bytes_comm [] [] = refl
add_bytes_comm [] (b ∷ bs) = refl
add_bytes_comm (a ∷ xs) [] = refl
add_bytes_comm (a ∷ xs) (b ∷ bs) = ground (arith, add_bytes_comm xs bs)

abbrev pub sodium : Sodium
sodium = record {
  init_ok = true;
  hash_sha256 = sized 32;
  auth_hmacsha256 = λ k m. sized 32 (m ++ k);
  aead_encrypt = seal;
  aead_decrypt = unseal;
  xaead_encrypt = seal;
  xaead_decrypt = unseal;
  scalarmult = λ n p. some (sized 32 (add_bytes n p));
  sign_detached = λ k m. some (sized 64 m);
  sign_verify_detached = λ sig m k. bytes_beq sig (sized 64 m);
  pwhash = λ size pw salt ops mem. some (sized size (pw ++ salt));
}

sealed-size :
    (text sealed : Bytes) → some (text ++ tag) ≡ some sealed → length sealed ≡ length text + 16
sealed-size text sealed h =
    subst (λ (t : Bytes). length t ≡ length text + 16) (some-injective _ _ h)
      (omega (arith, length-append text tag))

sealed-opens :
    (key nonce text ad sealed : Bytes)
    → some (text ++ tag) ≡ some sealed
    → unseal key nonce sealed ad ≡ some text
sealed-opens key nonce text ad sealed h =
    subst (λ (t : Bytes). unseal key nonce t ad ≡ some text) (some-injective _ _ h)
      (unseal-seal key nonce text ad)

pub sodium_laws : SodiumLaws sodium
sodium_laws = record {
  ready = refl;
  sha256_size = length-sized 32;
  hmac_size = λ k m. length-sized 32 (m ++ k);
  aead_total = λ k n p ad. (p ++ tag, refl);
  aead_size = λ k n p ad c. sealed-size p c;
  aead_opens = λ k n p ad c. sealed-opens k n p ad c;
  xaead_total = λ k n p ad. (p ++ tag, refl);
  xaead_size = λ k n p ad c. sealed-size p c;
  xaead_opens = λ k n p ad c. sealed-opens k n p ad c;
  scalarmult_size = λ n p q h.
      subst (λ (t : Bytes). length t ≡ 32) (some-injective _ _ h) (length-sized 32 (add_bytes n p));
  pwhash_size = λ size pw salt ops mem out h.
      subst (λ (t : Bytes). length t ≡ size) (some-injective _ _ h)
        (length-sized size (pw ++ salt));
}

pub agreement : IsKeyAgreement sodium
agreement = record {
  public_key = λ a. a;
  secret = λ a b. sized 32 (add_bytes a b);
  public_key_size = λ a h. h;
  computes = λ a b ha hb. refl;
  commutes = λ a b. rw (add_bytes_comm a b);
}

-- Random bytes: a counter that starts at a seed.
abbrev pub counting : ℕ → Draw
counting seed zero = []
counting seed (suc n) = seed ∷ counting (seed + 1) n

pub counting-IsDraw : (seed : ℕ) → IsDraw (counting seed)
counting-IsDraw seed zero = refl
counting-IsDraw seed (suc n) = omega (arith, counting-IsDraw (seed + 1) n)

abbrev number_code : ℤ → Bytes
number_code (pos n) = n ∷ []
number_code (negsuc n) = b'-' ∷ n ∷ []

abbrev query_line : List (String × String) → String
query_line [] = ""
query_line ((name, given) ∷ items) = append_text name (append_text "=" given)

abbrev pub qt : Qt
qt = record {
  number = number_code;
  to_utf8 = codes;
  from_utf8 = decode;
  to_base64 = to_unary;
  from_base64 = from_unary;
  to_json = to_json;
  from_json = from_json;
  json_error = λ b. "unexpected character";
  query_text = query_line;
}

pub qt_laws : QtLaws qt
qt_laws = record {
  utf8_round_trip = decode-codes;
  base64_round_trip = unary_round_trip;
  json_round_trip = λ j d. json_round_trip j;
  json_filled = λ j d. json_filled j;
}
