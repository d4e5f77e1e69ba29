-- ===== src/Crypto/Vault/Payload.antt =====
-- The payload of src/crypto/VaultService.cpp: the object that `saveVault` encrypts, and the secrets
-- that `loadExistingVault` reads from it.
use vox_desktop.Base.{
  ◌≡◌, ◌∙◌, refl, sym, ap, String, Bytes, none, [], ◌∷◌, ◌++◌, append_assoc, append-nil, subst,
  string_eq, ◌==◌, Bool-cases, inl, inr, arith,
}
use vox_desktop.Base.Dict.{Dict, lookup, insert}
use vox_desktop.Base.Dict.Keys.{Distinct, Distinct-fresh, insert_fresh}
use vox_desktop.Qt.{Qt, QtLaws}
use vox_desktop.Qt.Json
use vox_desktop.Qt.Json.{Fields, nil, field, text}
use vox_desktop.Crypto.Sodium.{Sodium}
use vox_desktop.Crypto.Vault.{to_b64, payload_of, secrets_of}

module _ (qt : Qt) (lib : Sodium) where
  -- Every secret under its name, in Base64.
  abbrev pub encoded : Dict String Bytes → Fields
  encoded [] = nil
  encoded ((k, v) ∷ m) = field k (text (to_b64 qt lib v)) (encoded m)

  insert-encoded :
      (a : Dict String Bytes) (k : String) (v : Bytes)
      → lookup a k ≡ none
      → Json.insert (encoded a) k (text (to_b64 qt lib v)) ≡ encoded (a ++ (k, v) ∷ [])
  unfolding Json.insert lookup
  insert-encoded [] k v h = refl
  insert-encoded ((j, w) ∷ a) k v h = elim (Bool-cases (j == k)) [
    | inl same ↦ absurd (ground arith)
    | inr other ↦ rw other (
        ap (λ (t : Fields). field j (text (to_b64 qt lib w)) t)
          (insert-encoded a k v (ground arith)))
  ]

  payload_of-encoded :
      (a m : Dict String Bytes)
      → Distinct (a ++ m)
      → payload_of qt lib (encoded a) m ≡ encoded (a ++ m)
  unfolding payload_of
  payload_of-encoded a [] d = ap encoded (sym (append-nil a))
  payload_of-encoded a ((k, v) ∷ m) d =
      let moved = append_assoc a ((k, v) ∷ []) m in
      ap (λ (t : Fields). payload_of qt lib t m) (insert-encoded a k v (Distinct-fresh a m k v d))
      ∙ payload_of-encoded (a ++ (k, v) ∷ []) m (subst Distinct (sym moved) d)
      ∙ ap encoded moved

  pub payload_of-eq-encoded :
      (m : Dict String Bytes) → Distinct m → payload_of qt lib nil m ≡ encoded m
  payload_of-eq-encoded m d = payload_of-encoded [] m d

module _ (qt : Qt) (qt_laws : QtLaws qt) (lib : Sodium) where
  secrets_of-append :
      (a m : Dict String Bytes)
      → Distinct (a ++ m)
      → secrets_of qt lib a (encoded qt lib m) ≡ a ++ m
  unfolding secrets_of
  secrets_of-append a [] d = sym (append-nil a)
  secrets_of-append a ((k, v) ∷ m) d =
      let moved = append_assoc a ((k, v) ∷ []) m in
      ap (λ (t : Dict String Bytes). secrets_of qt lib t (encoded qt lib m))
        (ap (insert a k) (qt_laws.base64_round_trip v)
          ∙ insert_fresh a k v (Distinct-fresh a m k v d))
      ∙ secrets_of-append (a ++ (k, v) ∷ []) m (subst Distinct (sym moved) d)
      ∙ moved

  -- Reading the payload back gives the secrets that were written.
  pub secrets_of-encoded :
      (m : Dict String Bytes) → Distinct m → secrets_of qt lib [] (encoded qt lib m) ≡ m
  secrets_of-encoded m d = secrets_of-append [] m d
