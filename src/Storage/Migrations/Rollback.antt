-- ===== src/Storage/Migrations/Rollback.antt =====
-- src/storage/Migrations.cpp: a migration that fails leaves nothing behind.
use vox_desktop.Base.{◌≡◌, ◌⊎◌, Bool, false, none, some}
use vox_desktop.Storage.Migrations.{DatabaseSchema, Connection}

-- No transaction is open, or the one that made the whole schema is and was not committed.
abbrev pub IsLeft : Bool → Connection → Type 0
IsLeft commits c =
    (c.pending ≡ none)
    ⊎ ((commits ≡ false)
        × (made : DatabaseSchema) × (c.pending ≡ some made)
        × (made.version ≡ some 1))
