-- ===== src/Network/JsonCodec.antt =====
-- src/network/JsonCodec.cpp. The message of a failure (`QString *error`) is a function of its own.
use vox_desktop.Base.{String, Bytes, Option, none, some, ◌>>=◌, if◌then◌else◌}
use vox_desktop.Base.Int.{ℤ}
use vox_desktop.Qt.{Qt}
use vox_desktop.Qt.Json.{Json, Fields, object, value, is_string, is_double, to_text, to_integer}

abbrev pub object_of : Json → Option Fields
object_of (object fs) = some fs
object_of _ = none

module _ (qt : Qt) where
  unfoldable pub parse_object : Bytes → Option Fields
  parse_object bytes = do doc ← qt.from_json bytes; object_of doc

  -- What `*error` is when `parse_object` has no object.
  unfoldable pub parse_error : Bytes → String
  parse_error bytes = qt.json_error bytes

  unfoldable pub to_bytes : Fields → Bytes
  to_bytes fs = qt.to_json (object fs)

unfoldable pub required_string : Fields → String → Option String
required_string obj key = let v = value obj key in if is_string v then some (to_text v) else none

unfoldable pub required_integer : Fields → String → Option ℤ
required_integer obj key =
    let v = value obj key in if is_double v then some (to_integer v) else none
