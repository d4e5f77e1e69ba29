-- ===== src/Storage/Accounts/Active.antt =====
-- src/storage/Repositories.cpp: which account `activeAccount` returns.
use vox_desktop.Base.{
  ℕ, ◌<◌, ◌∙◌, ap, none, ◌≤◌, ◌≡◌, refl, true, String, string_eq, ◌==◌, Bool-cases, inl, inr, List,
  [], ◌∷◌, Option, some, none, arith, if◌then◌else◌,
}
use mathlib.Core.Option.{some-injective}
use vox_desktop.Base.Dict.{lookup, insert}
use vox_desktop.Domain.{Account}
use vox_desktop.Storage.Table.{rows, insert_row, order_by}
use vox_desktop.Storage.Accounts.{AccountsTable, later_login, first_row, active_account}

-- The account whose login is not before that of another: the one in front of two, the earlier one
-- in the table if they are equal.
latest : Account → Option Account → Account
latest a none = a
latest a (some b) = if later_login b a then b else a

first_row-insert :
    (a : Account) (rs : List Account)
    → first_row (insert_row later_login a rs) ≡ some (latest a (first_row rs))
unfolding insert_row latest
first_row-insert a [] = refl
first_row-insert a (b ∷ rs) = ground arith

latest-bound : (a : Account) (o : Option Account) → a.last_login ≤ (latest a o).last_login
unfolding latest
latest-bound a none = omega arith
latest-bound a (some b) = ground arith

latest-bound_other : (a b : Account) → b.last_login ≤ (latest a (some b)).last_login
unfolding latest
latest-bound_other a b = ground arith

-- `activeAccount` returns an account whenever one is stored, and no stored account has a later
-- login than the one it returns.
active_account-latest :
    (t : AccountsTable) (id : String) (b : Account)
    → lookup t id ≡ some b
    → (a : Account) × (active_account true t ≡ some a) × (b.last_login ≤ a.last_login)
unfolding active_account order_by lookup
active_account-latest [] id b h = absurd (ground arith)
active_account-latest ((k, r) ∷ t) id b h =
    let front : first_row (insert_row later_login r (order_by later_login (rows t)))
        ≡ some (latest r (first_row (order_by later_login (rows t)))) =
      first_row-insert r (order_by later_login (rows t)) in
    (
      latest r (first_row (order_by later_login (rows t))),
      front,
      elim (Bool-cases (k == id)) [
        | inl same ↦
            let e : r ≡ b = some-injective _ _ (ground arith) in
            rw (← e) (latest-bound r (first_row (order_by later_login (rows t))))
        | inr other ↦
            let (a, found, bound) = active_account-latest t id b (ground arith) in
            rw found (omega (arith, latest-bound_other r a))
      ],
    )

-- An account that is not stored yet, and whose login is later than all stored ones, is the one that
-- `activeAccount` returns once it is stored.
abbrev pub AllEarlier : ℕ → AccountsTable → Type 0
AllEarlier now [] = Unit
AllEarlier now ((k, r) ∷ t) = (r.last_login < now) × AllEarlier now t

latest_of_earlier : (r a : Account) → r.last_login < a.last_login → latest r (some a) ≡ a
unfolding latest
latest_of_earlier r a h = ground arith

pub active_account-newest :
    (t : AccountsTable) (a : Account)
    → lookup t a.account_id ≡ none
    → AllEarlier a.last_login t
    → active_account true (insert t a.account_id a) ≡ some a
unfolding active_account order_by lookup insert insert_row
active_account-newest [] a fresh earlier = refl
active_account-newest ((k, r) ∷ t) a fresh earlier = elim (Bool-cases (k == a.account_id)) [
  | inl same ↦ absurd (ground arith)
  | inr other ↦
      let found = active_account-newest t a (ground arith) earlier.1 in
      rw other (
        first_row-insert r (order_by later_login (rows (insert t a.account_id a)))
        ∙ ap (λ (o : Option Account). some (latest r o)) found
        ∙ ap (λ (x : Account). some x) (latest_of_earlier r a earlier.0))
]
