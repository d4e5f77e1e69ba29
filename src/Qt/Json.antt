-- ===== src/Qt/Json.antt =====
-- QJsonValue, QJsonArray and QJsonObject, as far as the sources look into them. A number is an
-- integer or a `fraction` that none of the integer conversions accepts.
use vox_desktop.Base.{◌^◌, String, Bool, true, false, ltb, string_eq, ◌==◌, if◌then◌else◌}
use vox_desktop.Base.Int.{ℤ, pos, negsuc, int_limit}

mutual
  pub data Json : Type 0 where
    undefined : Json
    null : Json
    bool : Bool → Json
    number : ℤ → Json
    fraction : Json
    text : String → Json
    array : Items → Json
    object : Fields → Json

  pub data Items : Type 0 where
    end : Items
    item : Json → Items → Items

  pub data Fields : Type 0 where
    nil : Fields
    field : String → Json → Fields → Fields

-- What QJsonDocument prints: an object or an array.
abbrev pub IsDocument : Json → Type 0
IsDocument (array xs) = Unit {0}
IsDocument (object fs) = Unit {0}
IsDocument _ = ⊥

-- QJsonObject::value, insert, isEmpty; QJsonValue::toArray, toObject.
unfoldable pub value : Fields → String → Json
value nil key = undefined
value (field k v fs) key = if k == key then v else value fs key

unfoldable pub contains : Fields → String → Bool
contains nil key = false
contains (field k v fs) key = if k == key then true else contains fs key

unfoldable pub insert : Fields → String → Json → Fields
insert nil key v = field key v nil
insert (field k w fs) key v = if k == key then field key v fs else field k w (insert fs key v)

abbrev pub is_empty_object : Fields → Bool
is_empty_object nil = true
is_empty_object (field k v fs) = false

abbrev pub is_string : Json → Bool
is_string (text s) = true
is_string _ = false

abbrev pub is_double : Json → Bool
is_double (number n) = true
is_double fraction = true
is_double _ = false

abbrev pub to_text : Json → String
to_text (text s) = s
to_text _ = ""

abbrev pub to_bool : Json → Bool → Bool
to_bool (bool b) d = b
to_bool _ d = d

-- QJsonValue::toInt, with its default where the number is not an `int`.
abbrev pub to_int : Json → ℤ → ℤ
to_int (number (pos n)) d = if ltb n int_limit then pos n else d
to_int (number (negsuc n)) d = if ltb n int_limit then negsuc n else d
to_int _ d = d

-- QJsonValue::toInteger, with its default 0.
abbrev pub to_integer : Json → ℤ
to_integer (number (pos n)) = if ltb n (2 ^ 63) then pos n else pos 0
to_integer (number (negsuc n)) = if ltb n (2 ^ 63) then negsuc n else pos 0
to_integer _ = pos 0

abbrev pub to_array : Json → Items
to_array (array xs) = xs
to_array _ = end

abbrev pub to_object : Json → Fields
to_object (object fs) = fs
to_object _ = nil
