-- ===== src/Network/Parsing/RoundTrip.antt =====
-- src/network/ApiDtos.cpp: reading back what was printed.
use vox_desktop.Base.{◌≡◌, refl, Option, some, List, [], ◌∷◌, arith}
use vox_desktop.Base.Int.{ℤ, pos, negsuc, IsInt}
use vox_desktop.Qt.Json.{Fields, Items, end, item, number, object, value, insert, to_int}
use vox_desktop.Network.{SyncRecordDto, SyncKeyBundleDto}
use vox_desktop.Network.Printing.{sync_record_dto_to_json}
use vox_desktop.Network.Parsing.{
  get_string, parse_all, parse_sync_record_dto, parse_sync_key_bundle_dto,
}
use vox_desktop.Network.Clients.Sync.{key_bundle_body}

to_int-number : (n : ℤ) → IsInt n → to_int (number n) (pos 0) ≡ n
to_int-number (pos n) h = ground arith
to_int-number (negsuc n) h = ground arith

pub parse_sync_record_dto-to_json :
    (dto : SyncRecordDto)
    → IsInt dto.version
    → parse_sync_record_dto (sync_record_dto_to_json dto) ≡ some dto
unfolding parse_sync_record_dto sync_record_dto_to_json get_string value insert
parse_sync_record_dto-to_json dto h = rw (to_int-number dto.version h) refl

pub parse_sync_key_bundle_dto-body :
    (bundle : SyncKeyBundleDto)
    → IsInt bundle.version
    → parse_sync_key_bundle_dto (key_bundle_body bundle) ≡ some bundle
unfolding parse_sync_key_bundle_dto key_bundle_body get_string value insert
parse_sync_key_bundle_dto-body bundle h = rw (to_int-number bundle.version h) refl

-- An array of objects.
abbrev pub object_items {ℓ} : {A : Type ℓ} → (A → Fields) → List A → Items
object_items print [] = end
object_items print (a ∷ xs) = item (object (print a)) (object_items print xs)

abbrev pub Each {ℓ κ} : {A : Type ℓ} → (A → Type κ) → List A → Type κ
Each P [] = Unit
Each P (a ∷ xs) = P a × Each P xs

pub parse_all-object_items {ℓ κ} :
    {A : Type ℓ} (P : A → Type κ) (print : A → Fields) (parse : Fields → Option A)
    → ((a : A) → P a → parse (print a) ≡ some a)
    → (xs : List A) → Each P xs
    → parse_all parse (object_items print xs) ≡ some xs
unfolding parse_all
parse_all-object_items P print parse h [] e = refl
parse_all-object_items P print parse h (a ∷ xs) (p, e) =
    rw (h a p, parse_all-object_items P print parse h xs e) refl
