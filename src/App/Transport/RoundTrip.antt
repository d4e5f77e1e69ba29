-- ===== src/App/Transport/RoundTrip.antt =====
-- src/bin/Application.cpp: what is sent is read by whoever receives it.
use Prim.Native.Char.{code}
use Prim.Native.String.{[], ◌∷◌, ◌++◌ as append_text}
use text.Mathlib.TextLemmas.{cons-append}
use vox_desktop.Base.{
  ◌≡◌, refl, ap, String, true, false, nat_beq_refl, Bytes, codes, is_empty, drop, drop-append, ◌++◌,
  some, text_is_empty,
}
use vox_desktop.Qt.{Qt, QtLaws}
use vox_desktop.Qt.Text.{QtText}
use vox_desktop.App.Transport.{Base64, starts_with, decrypt_for_ui, encrypt_for_transport}

-- What Qt documents: base64 is text, UTF-8 of a text after "vox1:" is the UTF-8 of the text after
-- five bytes, and trimming keeps the characters that are not spaces.
pub record TransportLaws (qt : Qt) (strings : QtText) (base64 : Base64) : Type 0 where
  pub base64_round_trip :
      (b : Bytes) → base64.decode (qt.to_utf8 (qt.from_utf8 (base64.encode b))) ≡ b
  pub utf8_prefix :
      (s : String) → qt.to_utf8 (append_text "vox1:" s) ≡ codes "vox1:" ++ qt.to_utf8 s
  pub trimmed_prefix :
      (s : String) → text_is_empty (strings.trimmed (append_text "vox1:" s)) ≡ false

starts_with-append : (p s : String) → starts_with p (append_text p s) ≡ true
starts_with-append [] s = refl
starts_with-append (c ∷ p) s = rw cons-append (rw (nat_beq_refl (code c)) (starts_with-append p s))

module _ (qt : Qt) (qt_laws : QtLaws qt) (strings : QtText) (base64 : Base64)
    (laws : TransportLaws qt strings base64) where
  -- Where Qt keeps its laws, and for a text whose UTF-8 is not empty: `DecryptForUi` reads what
  -- `EncryptForTransport` wrote. No key is used: who has the ciphertext has the text.
  pub decrypt_for_ui-encrypt_for_transport :
      (plaintext : String)
      → is_empty (qt.to_utf8 plaintext) ≡ false
      → decrypt_for_ui qt strings base64 (encrypt_for_transport qt strings base64 plaintext)
        ≡ some plaintext
  unfolding decrypt_for_ui encrypt_for_transport
  decrypt_for_ui-encrypt_for_transport plaintext h =
      let body = qt.from_utf8 (base64.encode (qt.to_utf8 plaintext)) in
      let payload : base64.decode (drop 5 (qt.to_utf8 (append_text "vox1:" body)))
          ≡ qt.to_utf8 plaintext =
        rw (laws.utf8_prefix body, drop-append 5 (codes "vox1:") (qt.to_utf8 body) refl)
          (laws.base64_round_trip (qt.to_utf8 plaintext)) in
      rw (laws.trimmed_prefix body, starts_with-append "vox1:" body, payload, h)
        (ap (λ (s : String). some s) (qt_laws.utf8_round_trip plaintext))
