-- ===== src/Checks/Text.antt =====
-- Stand-ins for Qt's text conversions: code points for UTF-8, and unary digits for Base64.
use Prim.Native.Char.{Char, char, code, nul, IsLt, IsScalar}
use Prim.Native.Nat.{compare, Ordering}
use text.Mathlib.TextEquality.{Char-path}
use mathlib.Core.Path.{ap₂}
use vox_desktop.Base.{
  ℕ, zero, suc, ◌+◌, ◌≡◌, ◌∙◌, refl, ap, String, Bytes, codes, Option, some, none, [], ◌∷◌, ◌++◌,
  replicate, nat_beq, true, false, arith,
}

-- `IsScalar` from its three comparisons, decided.
abbrev Both : Ordering → Ordering → Type 0
Both Ordering.lt o = IsLt o
Both Ordering.eq _ = ⊥
Both Ordering.gt _ = ⊥

abbrev Scalar : Ordering → Ordering → Ordering → Type 0
Scalar Ordering.lt _ _ = Unit
Scalar Ordering.eq o p = Both o p
Scalar Ordering.gt o p = Both o p

abbrev dec_lt : (o : Ordering) → Option (IsLt o)
dec_lt Ordering.lt = some tt
dec_lt Ordering.eq = none
dec_lt Ordering.gt = none

abbrev dec_both : (o p : Ordering) → Option (Both o p)
dec_both Ordering.lt p = dec_lt p
dec_both Ordering.eq _ = none
dec_both Ordering.gt _ = none

abbrev dec_scalar : (o p q : Ordering) → Option (Scalar o p q)
dec_scalar Ordering.lt _ _ = some tt
dec_scalar Ordering.eq p q = dec_both p q
dec_scalar Ordering.gt p q = dec_both p q

dec_lt_complete : (o : Ordering) → IsLt o → (x : IsLt o) × (dec_lt o ≡ some x)
dec_lt_complete Ordering.lt h = (tt, refl)
dec_lt_complete Ordering.eq h = absurd h
dec_lt_complete Ordering.gt h = absurd h

dec_both_complete : (o p : Ordering) → Both o p → (x : Both o p) × (dec_both o p ≡ some x)
dec_both_complete Ordering.lt p h = dec_lt_complete p h
dec_both_complete Ordering.eq p h = absurd h
dec_both_complete Ordering.gt p h = absurd h

dec_scalar_complete :
    (o p q : Ordering) → Scalar o p q → (x : Scalar o p q) × (dec_scalar o p q ≡ some x)
dec_scalar_complete Ordering.lt p q h = (tt, refl)
dec_scalar_complete Ordering.eq p q h = dec_both_complete p q h
dec_scalar_complete Ordering.gt p q h = dec_both_complete p q h

abbrev as_char : (n : ℕ) → Option (IsScalar n) → Char
as_char n none = nul
as_char n (some p) = char n p

decode_code : ℕ → Char
decode_code n = as_char n (dec_scalar (compare n 55296) (compare 57343 n) (compare n 1114112))

decode_code-code : (c : Char) → decode_code (code c) ≡ c
unfolding decode_code
decode_code-code (char n p) =
    let (x, e) = dec_scalar_complete (compare n 55296) (compare 57343 n) (compare n 1114112) p in
    ap (as_char n) e ∙ Char-path (char n x) (char n p) refl

unfoldable pub decode : Bytes → String
unfolding decode_code
decode [] = String.[]
decode (n ∷ b) = String.◌∷◌ (decode_code n) (decode b)

pub decode-codes : (s : String) → decode (codes s) ≡ s
unfolding decode
decode-codes String.[] = refl
decode-codes (String.◌∷◌ c s) = ap₂ String.◌∷◌ (decode_code-code c) (decode-codes s)

-- A byte is as many `a`, and a semicolon.
abbrev pub to_unary : Bytes → Bytes
to_unary [] = []
to_unary (n ∷ b) = replicate n 97 ++ (59 ∷ to_unary b)

from_unary_at : ℕ → Bytes → Bytes
from_unary_at n [] = []
from_unary_at n (c ∷ b) = elim (nat_beq c 97) [
  | true ↦ from_unary_at (suc n) b
  | false ↦ n ∷ from_unary_at 0 b
]

unfoldable pub from_unary : Bytes → Bytes
unfolding from_unary_at
from_unary b = from_unary_at 0 b

from_unary_at-replicate :
    (n k : ℕ) (b : Bytes) → from_unary_at k (replicate n 97 ++ b) ≡ from_unary_at (n + k) b
unfolding from_unary_at
from_unary_at-replicate zero k b = ap (λ (j : ℕ). from_unary_at j b) (omega arith)
from_unary_at-replicate (suc n) k b =
    from_unary_at-replicate n (suc k) b ∙ ap (λ (j : ℕ). from_unary_at j b) (omega arith)

from_unary-to_unary : (b : Bytes) → from_unary (to_unary b) ≡ b
unfolding from_unary
from_unary-to_unary [] = refl
from_unary-to_unary (n ∷ b) =
    from_unary_at-replicate n 0 (59 ∷ to_unary b)
    ∙ ap₂ (λ (k : ℕ) (t : Bytes). k ∷ t) (omega arith) (from_unary-to_unary b)

codes-decode-replicate :
    (n : ℕ) (b : Bytes)
    → codes (decode b) ≡ b
    → codes (decode (replicate n 97 ++ b)) ≡ replicate n 97 ++ b
unfolding decode
codes-decode-replicate zero b h = h
codes-decode-replicate (suc n) b h = ap (λ (t : Bytes). 97 ∷ t) (codes-decode-replicate n b h)

codes-decode-unary : (b : Bytes) → codes (decode (to_unary b)) ≡ to_unary b
unfolding decode
codes-decode-unary [] = refl
codes-decode-unary (n ∷ b) =
    codes-decode-replicate n (59 ∷ to_unary b) (ap (λ (t : Bytes). 59 ∷ t) (codes-decode-unary b))

pub unary_round_trip : (b : Bytes) → from_unary (codes (decode (to_unary b))) ≡ b
unary_round_trip b = rw (codes-decode-unary b) (from_unary-to_unary b)
