-- ===== src/Storage/Migrations/Atomic.antt =====
-- src/storage/Migrations.cpp: a migration that succeeds leaves the whole schema.
use vox_desktop.Base.{
  ℕ, ◌≡◌, ◌∙◌, refl, sym, ap, subst, ==-self, value_or, String, string_eq, Bool, true, false, not,
  leb, Bool-cases, inl, inr, Option, none, some, List, [], ◌∷◌, has_value, arith, if◌then◌else◌,
}
use mathlib.Core.List.{Memᴰ}
use vox_desktop.Base.Dict.{lookup, lookup-insert}
use vox_desktop.Storage.Migrations.{
  DatabaseSchema, Connection, MigrationEnv, connected, effect, exec, exec_all, transaction,
  rollback, commit, upgrade, run, current_version,
}
use vox_desktop.Storage.Migrations.Schema.{
  Statement, create_table, insert_version, select_version, set_version, schema_migrations,
  statements,
}

abbrev pub has_table : String → DatabaseSchema → Bool
has_table name s = has_value (lookup s.tables name)

effect-keeps_tables :
    (statement : Statement) (s : DatabaseSchema) (name : String)
    → has_table name s ≡ true
    → has_table name (effect statement s) ≡ true
effect-keeps_tables (create_table other columns) s name h = elim (Bool-cases (has_table other s)) [
  | inl there ↦ rw there h
  | inr absent ↦ rw (absent, lookup-insert s.tables other name columns) (ground arith)
]
effect-keeps_tables insert_version s name h = h
effect-keeps_tables select_version s name h = h
effect-keeps_tables (set_version n) s name h = h

effect-create_table :
    (name : String) (columns : List String) (s : DatabaseSchema)
    → has_table name (effect (create_table name columns) s) ≡ true
effect-create_table name columns s = elim (Bool-cases (has_table name s)) [
  | inl there ↦ rw there there
  | inr absent ↦ rw (absent, lookup-insert s.tables name name columns) (rw (==-self name) refl)
]

-- The loop over statements, on the schema of one open transaction.
pub run_all : MigrationEnv → List Statement → DatabaseSchema → Bool × DatabaseSchema
run_all env [] s = (true, s)
run_all env (statement ∷ rest) s =
    let others = run_all env rest (effect statement s) in
    if env.runs statement then others else (false, s)

-- A transaction of which the schema is `s`, over what is stored.
abbrev pub in_transaction : DatabaseSchema → DatabaseSchema → Connection
in_transaction stored s = record { stored = stored; pending = some s }

pub exec_all-run_all :
    (env : MigrationEnv) (rest : List Statement) (stored s : DatabaseSchema)
    → exec_all env rest (in_transaction stored s)
      ≡ ((run_all env rest s).0, in_transaction stored (run_all env rest s).1)
unfolding exec_all run_all exec
exec_all-run_all env [] stored s = refl
exec_all-run_all env (statement ∷ rest) stored s = elim (Bool-cases (env.runs statement)) [
  | inl runs ↦ rw runs (exec_all-run_all env rest stored (effect statement s))
  | inr fails ↦ rw fails refl
]

run_all-step :
    (env : MigrationEnv) (statement : Statement) (rest : List Statement) (s : DatabaseSchema)
    → (run_all env (statement ∷ rest) s).0 ≡ true
    → run_all env (statement ∷ rest) s ≡ run_all env rest (effect statement s)
unfolding run_all
run_all-step env statement rest s h = elim (Bool-cases (env.runs statement)) [
  | inl runs ↦ rw runs refl
  | inr fails ↦ absurd (ground arith)
]

run_all-keeps_tables :
    (env : MigrationEnv) (rest : List Statement) (s : DatabaseSchema) (name : String)
    → (run_all env rest s).0 ≡ true
    → has_table name s ≡ true
    → has_table name (run_all env rest s).1 ≡ true
run_all-keeps_tables env [] s name h there = unfold run_all in there
run_all-keeps_tables env (statement ∷ rest) s name h there =
    let step = run_all-step env statement rest s h in
    rw step (
      run_all-keeps_tables env rest (effect statement s) name
        (sym (ap (λ (p : Bool × DatabaseSchema). p.0) step) ∙ h)
        (effect-keeps_tables statement s name there))

run_all-has_tables :
    (env : MigrationEnv) (rest : List Statement) (s : DatabaseSchema) (name : String)
    (columns : List String)
    → (run_all env rest s).0 ≡ true
    → Memᴰ (create_table name columns) rest
    → has_table name (run_all env rest s).1 ≡ true
run_all-has_tables env [] s name columns h m = elim m [ ]
run_all-has_tables env (statement ∷ rest) s name columns h m =
    let step = run_all-step env statement rest s h in
    let goes_on = sym (ap (λ (p : Bool × DatabaseSchema). p.0) step) ∙ h in
    rw step (elim m [
      | Memᴰ.head e ↦ run_all-keeps_tables env rest (effect statement s) name goes_on (
          subst (λ (st : Statement). has_table name (effect st s) ≡ true) e
            (effect-create_table name columns s))
      | Memᴰ.tail later ↦
          run_all-has_tables env rest (effect statement s) name columns goes_on later
    ])

-- The database once the version can be read.
abbrev pub prepared : DatabaseSchema → DatabaseSchema
prepared s = effect insert_version (effect schema_migrations s)

pub prepared-version : (s : DatabaseSchema) → (prepared s).version ≡ some (value_or s.version 0)
prepared-version s = elim (Bool-cases (has_table "schema_migrations" s)) [
  | inl there ↦ rw there refl
  | inr absent ↦ rw absent refl
]

pub run-prepared :
    (env : MigrationEnv) (s : DatabaseSchema)
    → env.runs schema_migrations ≡ true
    → env.runs insert_version ≡ true
    → env.runs select_version ≡ true
    → run env (connected s) ≡ upgrade env (value_or s.version 0) (connected (prepared s))
unfolding run exec
run-prepared env s a b c = elim (Bool-cases (has_table "schema_migrations" s)) [
  | inl there ↦ rw (a, b, c, there) refl
  | inr absent ↦ rw (a, b, c, absent) refl
]

run-true_runs :
    (env : MigrationEnv) (s : DatabaseSchema)
    → (run env (connected s)).0 ≡ true
    → (env.runs schema_migrations ≡ true)
      × (env.runs insert_version ≡ true)
      × (env.runs select_version ≡ true)
unfolding run exec
run-true_runs env s h = elim (Bool-cases (env.runs schema_migrations)) [
  | inr fails ↦ absurd (ground arith)
  | inl a ↦ elim (Bool-cases (env.runs insert_version)) [
    | inr fails ↦ absurd (ground arith)
    | inl b ↦ elim (Bool-cases (env.runs select_version)) [
      | inr fails ↦ absurd (ground arith)
      | inl c ↦ (a, b, c)
    ]
  ]
]

-- The version after some statements.
abbrev pub version_after : List Statement → Option ℕ → Option ℕ
version_after [] v = v
version_after (create_table name columns ∷ rest) v = version_after rest v
version_after (insert_version ∷ rest) v = version_after rest (some (value_or v 0))
version_after (select_version ∷ rest) v = version_after rest v
version_after (set_version n ∷ rest) v = version_after rest (if has_value v then some n else none)

effect-version :
    (statement : Statement) (rest : List Statement) (s : DatabaseSchema)
    → version_after rest (effect statement s).version ≡ version_after (statement ∷ rest) s.version
effect-version (create_table name columns) rest s = elim (Bool-cases (has_table name s)) [
  | inl there ↦ rw there refl
  | inr absent ↦ rw absent refl
]
effect-version insert_version rest s = refl
effect-version select_version rest s = refl
effect-version (set_version n) rest s = refl

pub run_all-version :
    (env : MigrationEnv) (rest : List Statement) (s : DatabaseSchema)
    → (run_all env rest s).0 ≡ true
    → (run_all env rest s).1.version ≡ version_after rest s.version
run_all-version env [] s h = unfold run_all in refl
run_all-version env (statement ∷ rest) s h =
    let step = run_all-step env statement rest s h in
    rw step (
      run_all-version env rest (effect statement s)
        (sym (ap (λ (p : Bool × DatabaseSchema). p.0) step) ∙ h)
      ∙ effect-version statement rest s)

transaction-begun :
    (env : MigrationEnv) (s : DatabaseSchema)
    → env.starts ≡ true
    → transaction env (connected s) ≡ (true, in_transaction s s)
unfolding transaction
transaction-begun env s h = rw h refl

transaction-refused :
    (env : MigrationEnv) (s : DatabaseSchema)
    → env.starts ≡ false
    → transaction env (connected s) ≡ (false, connected s)
unfolding transaction
transaction-refused env s h = rw h refl

-- How a migration of `s` ends whose statements make `made` of it, by what SQLite does.
abbrev pub outcome : Bool → Bool → Bool → Bool → DatabaseSchema → DatabaseSchema → Bool × Connection
outcome starts done rolls_back commits s made =
    if not starts
    then (false, connected s)
    else if not done
    then (false, if rolls_back then connected s else in_transaction s made)
    else if commits
    then (true, connected made)
    else (false, in_transaction s made)

pub upgrade-eq-outcome :
    (env : MigrationEnv) (version : ℕ) (s : DatabaseSchema)
    → leb current_version version ≡ false
    → let (done, made) = run_all env statements s in
      upgrade env version (connected s) ≡ outcome env.starts done env.rolls_back env.commits s made
unfolding upgrade rollback commit
upgrade-eq-outcome env version s old = elim (Bool-cases env.starts) [
  | inr fails ↦ rw (old, transaction-refused env s fails) (rw fails refl)
  | inl starts ↦
      rw (old, transaction-begun env s starts, exec_all-run_all env statements s s) (rw starts refl)
]

upgrade-true :
    (env : MigrationEnv) (s : DatabaseSchema)
    → (upgrade env 0 (connected s)).0 ≡ true
    → ((run_all env statements s).0 ≡ true)
      × ((upgrade env 0 (connected s)).1 ≡ connected (run_all env statements s).1)
unfolding current_version
upgrade-true env s h =
    let same = upgrade-eq-outcome env 0 s refl in
    let ended = sym (ap (λ (p : Bool × Connection). p.0) same) ∙ h in
    elim (Bool-cases (run_all env statements s).0) [
      | inr failed ↦ absurd (ground arith)
      | inl done ↦ (done, rw same (ground arith))
    ]

-- On a database without a version, or of version 0: where `run` returns true what is stored has the
-- version 1 and each table of the schema, and no transaction is open.
pub run_complete :
    (env : MigrationEnv) (s : DatabaseSchema) (name : String) (columns : List String)
    → value_or s.version 0 ≡ 0
    → (run env (connected s)).0 ≡ true
    → Memᴰ (create_table name columns) statements
    → let c = (run env (connected s)).1 in
      (c.stored.version ≡ some 1) × (has_table name c.stored ≡ true) × (c.pending ≡ none)
run_complete env s name columns old h m =
    let (a, b, c) = run-true_runs env s h in
    let same : run env (connected s) ≡ upgrade env 0 (connected (prepared s)) =
      run-prepared env s a b c ∙ ap (λ (v : ℕ). upgrade env v (connected (prepared s))) old in
    let ended = sym (ap (λ (p : Bool × Connection). p.0) same) ∙ h in
    let (done, is) = upgrade-true env (prepared s) ended in
    rw (same, is)
      (
        run_all-version env statements (prepared s) done
            ∙ ap (version_after statements) (prepared-version s ∙ ap (λ (v : ℕ). some v) old),
        run_all-has_tables env statements (prepared s) name columns done m,
        refl,
      )
