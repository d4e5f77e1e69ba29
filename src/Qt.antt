-- ===== src/Qt.antt =====
-- What the sources call of Qt's conversions: parameters of the model, and the round trips that
-- Qt documents for them.
pub mod Json
pub mod Text
use vox_desktop.Base.{ℕ, ◌≡◌, String, Option, some, Bytes, false, is_empty, List}
use vox_desktop.Base.Int.{ℤ}
use Json.{IsDocument}

pub record Qt : Type 0 where
  -- QByteArray::number and QString::number
  pub number : ℤ → Bytes
  -- QString::toUtf8 and QString::fromUtf8
  pub to_utf8 : String → Bytes
  pub from_utf8 : Bytes → String
  -- QByteArray::toBase64 and fromBase64 with Base64UrlEncoding and OmitTrailingEquals
  pub to_base64 : Bytes → Bytes
  pub from_base64 : Bytes → Bytes
  -- QJsonDocument::toJson and fromJson
  pub to_json : Json.Json → Bytes
  pub from_json : Bytes → Option Json.Json
  -- QJsonParseError::errorString after the parsing of some bytes
  pub json_error : Bytes → String
  -- QUrlQuery::toString with QUrl::FullyEncoded
  pub query_text : List (String × String) → String

pub record QtLaws (qt : Qt) : Type 0 where
  pub utf8_round_trip : (s : String) → qt.from_utf8 (qt.to_utf8 s) ≡ s
  -- Base64 is ASCII, which UTF-8 decoding and encoding keep.
  pub base64_round_trip :
      (b : Bytes) → qt.from_base64 (qt.to_utf8 (qt.from_utf8 (qt.to_base64 b))) ≡ b
  -- Of the values that the model has. Qt prints an object's fields in the order of their names, where
  -- these keep the order in which they were put in; what reads them back looks them up by name.
  pub json_round_trip : (j : Json.Json) → IsDocument j → qt.from_json (qt.to_json j) ≡ some j
  -- No document is printed as nothing.
  pub json_filled : (j : Json.Json) → IsDocument j → is_empty (qt.to_json j) ≡ false
