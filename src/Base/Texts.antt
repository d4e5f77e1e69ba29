-- ===== src/Base/Texts.antt =====
-- Texts that are not empty.
use Prim.Native.Char.{Char}
use Prim.Native.String.{String, [], ◌∷◌, ◌++◌ as append_text}
use mathlib.Core.Path.{◌≡◌, ap}
use mathlib.Core.Logic.{inl, inr}
use mathlib.Core.Bool.{Bool, true, false}
use native.Mathlib.Omega.{arith}
use text.Mathlib.TextLemmas.{cons-append}
use vox_desktop.Base.Tests.{text_is_empty, text_eq_iff, Bool-cases}

abbrev has_char : String → Bool
has_char [] = false
has_char (c ∷ s) = true

filled-cons : (c : Char) (s : String) → text_is_empty (c ∷ s) ≡ false
filled-cons c s = elim (Bool-cases (text_is_empty (c ∷ s))) [
  | inl e ↦
      let clash : true ≡ false = ap has_char ((text_eq_iff (c ∷ s) "").0 e) in absurd (ground arith)
  | inr e ↦ e
]

pub append_filled : (c : Char) (s u : String) → text_is_empty (append_text (c ∷ s) u) ≡ false
append_filled c s u = rw cons-append (filled-cons c (append_text s u))

pub append_filled_left :
    (s u : String) → text_is_empty s ≡ false → text_is_empty (append_text s u) ≡ false
append_filled_left [] u h = absurd (ground (arith, text_eq_iff "" ""))
append_filled_left (c ∷ s) u h = append_filled c s u
