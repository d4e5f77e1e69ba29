-- ===== src/Qt/Text.antt =====
-- What the sources call of QString beyond its conversions: parameters of the model. The text of
-- `arg` and `join` is put together here, as QString documents it.
use Prim.Native.String.{◌++◌ as append_text}
use vox_desktop.Base.{ℕ, String, List, [], ◌∷◌}

pub record QtText : Type 0 where
  pub size : String → ℕ
  pub right : String → ℕ → String
  pub trimmed : String → String
  pub to_lower : String → String
  -- split(QRegularExpression("\\s+"), Qt::SkipEmptyParts)
  pub split_spaces : String → List String

-- QStringList::join
abbrev pub join : String → List String → String
join between [] = ""
join between (part ∷ []) = part
join between (part ∷ more ∷ parts) =
    append_text part (append_text between (join between (more ∷ parts)))
