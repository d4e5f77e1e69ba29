-- ===== src/Checks/JsonText.antt =====
-- A stand-in for Qt's JSON text: one number to a tag, and a parser on fuel that reads it back.
use vox_desktop.Base.{
  ℕ, zero, suc, ◌≤◌, ◌≡◌, refl, ap, String, Bytes, codes, Option, some, none, true, [], ◌∷◌, ◌++◌,
  append_assoc, append-nil, length, length-append, take, drop, take-append, drop-append, arith,
  is_empty, false, ◌>>=◌,
}
use native.Mathlib.Nat.{le_refl}
use vox_desktop.Base.Int.{pos, negsuc}
use vox_desktop.Qt.Json.{
  Json, Items, Fields, undefined, null, bool, number, fraction, text, array, object, end, item, nil,
  field,
}
use vox_desktop.Checks.Text.{decode, decode-codes}

abbrev text_code : String → Bytes
text_code s = length (codes s) ∷ codes s

mutual
  json_code : Json → Bytes
  json_code undefined = 0 ∷ []
  json_code null = 1 ∷ []
  json_code (bool true) = 2 ∷ []
  json_code (bool false) = 3 ∷ []
  json_code (number (pos n)) = 4 ∷ n ∷ []
  json_code (number (negsuc n)) = 5 ∷ n ∷ []
  json_code fraction = 6 ∷ []
  json_code (text s) = 7 ∷ text_code s
  json_code (array xs) = 8 ∷ items_code xs
  json_code (object fs) = 9 ∷ fields_code fs

  items_code : Items → Bytes
  items_code end = 0 ∷ []
  items_code (item v xs) = 1 ∷ (json_code v ++ items_code xs)

  fields_code : Fields → Bytes
  fields_code nil = 0 ∷ []
  fields_code (field k v fs) = 1 ∷ (text_code k ++ (json_code v ++ fields_code fs))

parse_text : Bytes → Option (String × Bytes)
parse_text [] = none
parse_text (n ∷ b) = some (decode (take n b), drop n b)

mutual
  parse_json : ℕ → Bytes → Option (Json × Bytes)
  parse_json zero b = none
  parse_json (suc f) (zero ∷ b) = some (undefined, b)
  parse_json (suc f) (suc zero ∷ b) = some (null, b)
  parse_json (suc f) (suc (suc zero) ∷ b) = some (bool true, b)
  parse_json (suc f) (suc (suc (suc zero)) ∷ b) = some (bool false, b)
  parse_json (suc f) (suc (suc (suc (suc zero))) ∷ n ∷ b) = some (number (pos n), b)
  parse_json (suc f) (suc (suc (suc (suc (suc zero)))) ∷ n ∷ b) = some (number (negsuc n), b)
  parse_json (suc f) (suc (suc (suc (suc (suc (suc zero))))) ∷ b) = some (fraction, b)
  parse_json (suc f) (suc (suc (suc (suc (suc (suc (suc zero)))))) ∷ b) = do
    (s, r) ← parse_text b
    some (text s, r)
  parse_json (suc f) (suc (suc (suc (suc (suc (suc (suc (suc zero))))))) ∷ b) = do
    (xs, r) ← parse_items f b
    some (array xs, r)
  parse_json (suc f) (suc (suc (suc (suc (suc (suc (suc (suc (suc n)))))))) ∷ b) = do
    (fs, r) ← parse_fields f b
    some (object fs, r)
  parse_json (suc f) _ = none

  parse_items : ℕ → Bytes → Option (Items × Bytes)
  parse_items zero b = none
  parse_items (suc f) [] = none
  parse_items (suc f) (zero ∷ b) = some (end, b)
  parse_items (suc f) (suc n ∷ b) = do
    (v, r) ← parse_json f b
    (xs, r') ← parse_items f r
    some (item v xs, r')

  parse_fields : ℕ → Bytes → Option (Fields × Bytes)
  parse_fields zero b = none
  parse_fields (suc f) [] = none
  parse_fields (suc f) (zero ∷ b) = some (nil, b)
  parse_fields (suc f) (suc n ∷ b) = do
    (k, r) ← parse_text b
    (v, r') ← parse_json f r
    (fs, r'') ← parse_fields f r'
    some (field k v fs, r'')

parse_text-code : (s : String) (r : Bytes) → parse_text (text_code s ++ r) ≡ some (s, r)
unfolding parse_text
parse_text-code s r =
    rw
      (
        take-append (length (codes s)) (codes s) r refl,
        drop-append (length (codes s)) (codes s) r refl,
        decode-codes s,
      )
      refl

mutual
  unfolding json_code items_code fields_code parse_json parse_items parse_fields

  parse_json-code :
      (v : Json) (f : ℕ) (r : Bytes)
      → length (json_code v) ≤ f
      → parse_json f (json_code v ++ r) ≡ some (v, r)
  parse_json-code undefined zero r h = absurd (omega arith)
  parse_json-code undefined (suc f) r h = refl
  parse_json-code null zero r h = absurd (omega arith)
  parse_json-code null (suc f) r h = refl
  parse_json-code (bool true) zero r h = absurd (omega arith)
  parse_json-code (bool true) (suc f) r h = refl
  parse_json-code (bool false) zero r h = absurd (omega arith)
  parse_json-code (bool false) (suc f) r h = refl
  parse_json-code (number (pos n)) zero r h = absurd (omega arith)
  parse_json-code (number (pos n)) (suc f) r h = refl
  parse_json-code (number (negsuc n)) zero r h = absurd (omega arith)
  parse_json-code (number (negsuc n)) (suc f) r h = refl
  parse_json-code fraction zero r h = absurd (omega arith)
  parse_json-code fraction (suc f) r h = refl
  parse_json-code (text s) zero r h = absurd (omega arith)
  parse_json-code (text s) (suc f) r h = rw (parse_text-code s r)
  parse_json-code (array xs) zero r h = absurd (omega arith)
  parse_json-code (array xs) (suc f) r h = rw (parse_items-code xs f r (omega arith))
  parse_json-code (object fs) zero r h = absurd (omega arith)
  parse_json-code (object fs) (suc f) r h = rw (parse_fields-code fs f r (omega arith))

  parse_items-code :
      (xs : Items) (f : ℕ) (r : Bytes)
      → length (items_code xs) ≤ f
      → parse_items f (items_code xs ++ r) ≡ some (xs, r)
  parse_items-code end zero r h = absurd (omega arith)
  parse_items-code end (suc f) r h = refl
  parse_items-code (item v xs) zero r h = absurd (omega arith)
  parse_items-code (item v xs) (suc f) r h =
      let sizes = length-append (json_code v) (items_code xs) in
      rw (
        append_assoc (json_code v) (items_code xs) r,
        parse_json-code v f (items_code xs ++ r) (omega arith),
        parse_items-code xs f r (omega arith),
      )

  parse_fields-code :
      (fs : Fields) (f : ℕ) (r : Bytes)
      → length (fields_code fs) ≤ f
      → parse_fields f (fields_code fs ++ r) ≡ some (fs, r)
  parse_fields-code nil zero r h = absurd (omega arith)
  parse_fields-code nil (suc f) r h = refl
  parse_fields-code (field k v fs) zero r h = absurd (omega arith)
  parse_fields-code (field k v fs) (suc f) r h =
      let rest = json_code v ++ fields_code fs in
      let sizes = length-append (text_code k) rest in
      let sizes' = length-append (json_code v) (fields_code fs) in
      rw (
        append_assoc (text_code k) rest r,
        parse_text-code k (rest ++ r),
        append_assoc (json_code v) (fields_code fs) r,
        parse_json-code v f (fields_code fs ++ r) (omega arith),
        parse_fields-code fs f r (omega arith),
      )

first : Option (Json × Bytes) → Option Json
first none = none
first (some (v, r)) = some v

unfoldable pub to_json : Json → Bytes
unfolding json_code
to_json v = json_code v

unfoldable pub from_json : Bytes → Option Json
unfolding parse_json parse_text first
from_json b = first (parse_json (length b) b)

pub json_round_trip : (v : Json) → from_json (to_json v) ≡ some v
unfolding from_json to_json
json_round_trip v =
    let parsed = parse_json-code v (length (json_code v)) [] (le_refl (length (json_code v))) in
    ap first (rw (append-nil (json_code v)) at parsed)

pub json_filled : (v : Json) → is_empty (to_json v) ≡ false
unfolding to_json json_code
json_filled undefined = refl
json_filled null = refl
json_filled (bool true) = refl
json_filled (bool false) = refl
json_filled (number (pos n)) = refl
json_filled (number (negsuc n)) = refl
json_filled fraction = refl
json_filled (text s) = refl
json_filled (array xs) = refl
json_filled (object fs) = refl
