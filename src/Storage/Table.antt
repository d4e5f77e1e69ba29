-- ===== src/Storage/Table.antt =====
-- What the statements of src/storage/Repositories.cpp mean: a table holds one row to a primary key,
-- `INSERT ... ON CONFLICT(key) DO UPDATE SET ...` is `upsert`, `WHERE` is `keep` and `ORDER BY` is
-- `order_by`. Rows that `ORDER BY` does not tell apart stay in table order, which SQL leaves open.
pub mod Rows
pub mod Order
use vox_desktop.Base.{Bool, Option, none, some, List, [], ◌∷◌, Eq, if◌then◌else◌}
use vox_desktop.Base.Dict.{Dict, lookup, insert}

abbrev pub rows {ℓ κ} : {K : Type ℓ} {R : Type κ} → Dict K R → List R
rows [] = []
rows ((k, r) ∷ t) = r ∷ rows t

-- The row that an upsert leaves: `set` is the SET clause, over the row that is there and `excluded`.
abbrev pub merged {ℓ} : {R : Type ℓ} → (R → R → R) → Option R → R → R
merged set none excluded = excluded
merged set (some old) excluded = set old excluded

unfoldable pub upsert {ℓ κ} :
    {K : Type ℓ} {R : Type κ} ⦃e : Eq K⦄ → (R → R → R) → Dict K R → K → R → Dict K R
upsert set t k excluded = insert t k (merged set (lookup t k) excluded)

unfoldable pub keep {ℓ} : {R : Type ℓ} → (R → Bool) → List R → List R
keep p [] = []
keep p (r ∷ rs) = let rest = keep p rs in if p r then r ∷ rest else rest

-- `before a b`: the row `a` stands strictly before `b` in the order.
unfoldable pub insert_row {ℓ} : {R : Type ℓ} → (R → R → Bool) → R → List R → List R
insert_row before r [] = r ∷ []
insert_row before r (q ∷ qs) =
    let rest = insert_row before r qs in if before q r then q ∷ rest else r ∷ q ∷ qs

unfoldable pub order_by {ℓ} : {R : Type ℓ} → (R → R → Bool) → List R → List R
order_by before [] = []
order_by before (r ∷ rs) = insert_row before r (order_by before rs)
