-- ===== src/Storage/Accounts.antt =====
-- src/storage/Repositories.cpp, `SqlAccountsRepository`. Here and in the other repositories `runs`
-- says whether the engine runs the statement; where it does not, nothing changes.
pub mod Active
use vox_desktop.Base.{
  ℕ, Bool, false, true, not, String, string_eq, Option, none, some, List, [], ◌∷◌, ltb,
  text_is_empty, if◌then◌else◌,
}
use vox_desktop.Base.Dict.{Dict, remove}
use vox_desktop.Domain.{Account}
use vox_desktop.Storage.Table.{rows, upsert, order_by}

-- The columns of `accounts` are the fields of `Account`.
abbrev pub AccountsTable : Type 0
AccountsTable = Dict String Account

unfoldable pub upsert_account : Bool → Account → AccountsTable → Bool × AccountsTable
upsert_account runs account t =
    if runs
    then (true, upsert (λ old excluded. excluded) t account.account_id account)
    else (false, t)

abbrev pub later_login : Account → Account → Bool
later_login a b = ltb b.last_login a.last_login

abbrev pub first_row : List Account → Option Account
first_row [] = none
first_row (r ∷ rs) = some r

unfoldable pub active_account : Bool → AccountsTable → Option Account
active_account runs t = if runs then first_row (order_by later_login (rows t)) else none

unfoldable pub delete_account : Bool → String → AccountsTable → Bool × AccountsTable
delete_account runs account_id t =
    if text_is_empty account_id
    then (false, t)
    else if runs
    then (true, remove t account_id)
    else (false, t)
