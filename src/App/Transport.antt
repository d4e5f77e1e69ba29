-- ===== src/App/Transport.antt =====
-- src/bin/Application.cpp: the text of a message as it goes over the network.
pub mod RoundTrip
use Prim.Native.Char.{code}
use Prim.Native.String.{[], ◌∷◌, ◌++◌ as append_text}
use vox_desktop.Base.{
  ℕ, String, Bool, true, false, not, ◌&&◌, Bytes, is_empty, drop, nat_beq, Option, none, some, List,
  [], ◌∷◌, text_is_empty, if◌then◌else◌,
}
use vox_desktop.Qt.{Qt}
use vox_desktop.Qt.Text.{QtText}

-- QByteArray::toBase64 and fromBase64 with Base64Encoding.
pub record Base64 : Type 0 where
  pub encode : Bytes → Bytes
  pub decode : Bytes → Bytes

-- QString::startsWith
abbrev pub starts_with : String → String → Bool
starts_with [] s = true
starts_with (c ∷ prefix) [] = false
starts_with (c ∷ prefix) (d ∷ s) = nat_beq (code c) (code d) && starts_with prefix s

-- The loop over the bytes: whether none is 0.
abbrev pub looks_plain : Bytes → Bool
looks_plain [] = true
looks_plain (ch ∷ rest) = if nat_beq ch 0 then false else looks_plain rest

module _ (qt : Qt) (strings : QtText) (base64 : Base64) where
  -- After the prefix.
  abbrev pub decoded_or : Bytes → Option String → Option String
  decoded_or decoded other = if is_empty decoded then other else some (qt.from_utf8 decoded)

  abbrev pub plain_or_decoded : String → Option String
  plain_or_decoded ciphertext =
      let as_utf8 = qt.to_utf8 ciphertext in
      if looks_plain as_utf8 then some ciphertext else decoded_or (base64.decode as_utf8) none

  unfoldable pub decrypt_for_ui : String → Option String
  decrypt_for_ui ciphertext =
      if text_is_empty (strings.trimmed ciphertext)
      then some ""
      else if starts_with "vox1:" ciphertext
      then decoded_or (base64.decode (drop 5 (qt.to_utf8 ciphertext))) (plain_or_decoded ciphertext)
      else plain_or_decoded ciphertext

  unfoldable pub encrypt_for_transport : String → String
  encrypt_for_transport plaintext =
      append_text "vox1:" (qt.from_utf8 (base64.encode (qt.to_utf8 plaintext)))
