-- ===== src/Storage/Migrations.antt =====
-- src/storage/Migrations.cpp. The state is the connection to the database: the schema that is stored,
-- and while a transaction is open the one that the transaction has made of it. `MigrationEnv` says
-- which statements SQLite runs, and whether it begins, rolls back and commits a transaction.
pub mod Schema
pub mod Atomic
pub mod Rollback
use vox_desktop.Base.{
  ℕ, String, string_eq, Bool, true, false, not, ◌&&◌, Option, none, some, List, [], ◌∷◌, has_value,
  value_or, leb, if◌then◌else◌,
}
use vox_desktop.Base.Dict.{Dict, lookup, insert}
use Schema.{
  Statement, create_table, insert_version, select_version, set_version, schema_migrations,
  statements,
}

-- The tables by name, and the row of schema_migrations.
pub record DatabaseSchema : Type 0 where
  pub tables : Dict String (List String)
  pub version : Option ℕ

-- What is stored, and what the open transaction, if there is one, would store.
pub record Connection : Type 0 where
  pub stored : DatabaseSchema
  pub pending : Option DatabaseSchema

-- A new connection. It is also what is left of one that is closed, since SQLite then drops an open
-- transaction.
abbrev pub connected : DatabaseSchema → Connection
connected s = record { stored = s; pending = none }

-- What the connection reads.
abbrev pub seen : Connection → DatabaseSchema
seen c = value_or c.pending c.stored

-- What is written outside of a transaction is stored at once.
abbrev written : Option DatabaseSchema → DatabaseSchema → DatabaseSchema → Connection
written none stored s = record { stored = s; pending = none }
written (some before) stored s = record { stored = stored; pending = some s }

pub record MigrationEnv : Type 0 where
  pub runs : Statement → Bool
  pub starts : Bool
  pub rolls_back : Bool
  pub commits : Bool

unfoldable pub current_version : ℕ
current_version = 1

-- What a statement does when it is run.
abbrev pub effect : Statement → DatabaseSchema → DatabaseSchema
effect (create_table name columns) s =
    if has_value (lookup s.tables name)
    then s
    else record s { tables = insert s.tables name columns }
effect insert_version s = record s { version = some (value_or s.version 0) }
effect select_version s = s
effect (set_version n) s = record s { version = if has_value s.version then some n else none }

unfoldable pub exec : MigrationEnv → Statement → Connection → Bool × Connection
exec env statement c =
    if env.runs statement
    then (true, written c.pending c.stored (effect statement (seen c)))
    else (false, c)

-- QSqlDatabase::transaction, rollback and commit. SQLite has no transaction in a transaction.
unfoldable pub transaction : MigrationEnv → Connection → Bool × Connection
transaction env c =
    if env.starts && not (has_value c.pending)
    then (true, record c { pending = some c.stored })
    else (false, c)

unfoldable pub rollback : MigrationEnv → Connection → Connection
rollback env c = if env.rolls_back then record c { pending = none } else c

unfoldable pub commit : MigrationEnv → Connection → Bool × Connection
commit env c = if env.commits then (true, connected (seen c)) else (false, c)

-- The loop over the statements.
unfoldable pub exec_all : MigrationEnv → List Statement → Connection → Bool × Connection
exec_all env [] c = (true, c)
exec_all env (statement ∷ rest) c =
    let (done, c') = exec env statement c in
    let others = exec_all env rest c' in if done then others else (false, c')

-- From the version on.
unfoldable pub upgrade : MigrationEnv → ℕ → Connection → Bool × Connection
upgrade env version c =
    let (begun, c1) = transaction env c in
    let (done, c2) = exec_all env statements c1 in
    if leb current_version version
    then (true, c)
    else if not begun
    then (false, c1)
    else if not done
    then (false, rollback env c2)
    else commit env c2

abbrev pub read_version : MigrationEnv → Option ℕ → Connection → Bool × Connection
read_version env none c = (false, c)
read_version env (some version) c = upgrade env version c

unfoldable pub run : MigrationEnv → Connection → Bool × Connection
run env c =
    let (created, c1) = exec env schema_migrations c in
    let (inserted, c2) = exec env insert_version c1 in
    let (selected, c3) = exec env select_version c2 in
    if not created
    then (false, c1)
    else if not inserted
    then (false, c2)
    else if not selected
    then (false, c3)
    else read_version env (seen c3).version c3
