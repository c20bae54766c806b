-- ===== src/Migrations/Run.antt =====
-- internal/store/sqlite/migrate.go: the calls of the database and the migration itself. A call of the
-- driver goes through or is refused, and a transaction that fails leaves the database as it was.
use claw.Prelude.{
  ℕ, ◌==◌, Bool, true, false, ◌&&◌, not, Option, none, some, List, [], ◌∷◌, ◌++◌, if◌then◌else◌,
  first,
}
use claw.Prelude.Text.{Text, codes, text_eq, decimal}
use claw.Errors.{
  Error, message, Result, ok, err, Action, ◌>>=◌, ◌>>◌, or_wrap, succeed, fail, of_result,
}
use claw.Migrations.{MigrationFile, Entry, MigrationRow, Database, Schema, load_migration_files}

-- CREATE TABLE IF NOT EXISTS
abbrev pub or_empty : Option (List MigrationRow) → Option (List MigrationRow)
or_empty none = some []
or_empty (some rows) = some rows

unfoldable pub has_version : ℕ → List MigrationRow → Bool
has_version version [] = false
has_version version (row ∷ rows) = if row.version == version then true else has_version version rows

abbrev pub missing_table : Error
missing_table = message (codes "no such table: schema_migrations")

abbrev pub rows_or_missing : Option (List MigrationRow) → Result (List MigrationRow)
rows_or_missing none = err missing_table
rows_or_missing (some rows) = ok rows

-- INSERT, where the version is the primary key.
abbrev pub insert_row : MigrationRow → Option (List MigrationRow) → Result (List MigrationRow)
insert_row row none = err missing_table
insert_row row (some rows) =
    if has_version row.version rows
    then err (message (codes "UNIQUE constraint failed: schema_migrations.version"))
    else ok (rows ++ row ∷ [])

-- INSERT OR IGNORE
abbrev pub insert_or_ignore : MigrationRow → Option (List MigrationRow) → Result (List MigrationRow)
insert_or_ignore row none = err missing_table
insert_or_ignore row (some rows) =
    ok (if has_version row.version rows then rows else rows ++ row ∷ [])

abbrev pub is_some : {A : Type 0} → Option A → Bool
is_some none = false
is_some (some x) = true

unfoldable pub has_all_columns : List Text → List Text → Bool
has_all_columns existing [] = true
has_all_columns existing (c ∷ required) =
    is_some (first (text_eq c) existing) && has_all_columns existing required

module _ {D : Type 0} where
  abbrev pub answered : Database D → List (Option Error) → Result (Unit {0}) × Database D
  answered s [] = (ok tt, s)
  answered s (none ∷ rest) = (ok tt, record s { answers = rest })
  answered s (some e ∷ rest) = (err e, record s { answers = rest })

  -- One call of the driver.
  unfoldable pub call : Action (Database D) (Unit {0})
  call s = answered s s.answers

  abbrev pub read : {A : Type 0} → (Database D → A) → Action (Database D) A
  read f s = (ok (f s), s)

  abbrev pub write : (Database D → Database D) → Action (Database D) (Unit {0})
  write f s = (ok tt, f s)

  abbrev pub rolled_back :
      Database D → Result (Unit {0}) × Database D → Result (Unit {0}) × Database D
  rolled_back before (ok x, s) = (ok x, s)
  rolled_back before (err e, s) = (err e, record s { applied = before.applied; rest = before.rest })

  -- The deferred `tx.Rollback()`
  abbrev pub transaction : Action (Database D) (Unit {0}) → Action (Database D) (Unit {0})
  transaction body s = rolled_back s (body s)

  unfoldable pub ensure_schema_migrations_table : Action (Database D) (Unit {0})
  ensure_schema_migrations_table = do
    or_wrap (codes "ensure schema_migrations table") call
    write (λ s. record s { applied = or_empty s.applied })

  -- The versions, as the rows that hold them.
  unfoldable pub applied_migration_versions : Action (Database D) (List MigrationRow)
  applied_migration_versions =
      or_wrap (codes "query applied schema migrations")
        (do call; λ s. (rows_or_missing s.applied, s))

  abbrev pub store_rows : Database D → Result (List MigrationRow) → Result (Unit {0}) × Database D
  store_rows s (ok rows) = (ok tt, record s { applied = some rows })
  store_rows s (err e) = (err e, s)

  abbrev pub stored_rest : Database D → Result D → Result (Unit {0}) × Database D
  stored_rest s (ok rest) = (ok tt, record s { rest = rest })
  stored_rest s (err e) = (err e, s)

  abbrev pub row_at : Database D → ℕ → MigrationRow
  row_at s version = record { version = version; applied_at = s.now }

abbrev pub legacy_task_worktree_columns : List Text
legacy_task_worktree_columns =
    codes "branch_name"
    ∷ codes "base_ref"
    ∷ codes "worktree_path"
    ∷ codes "worktree_status"
    ∷ codes "worktree_created_at"
    ∷ codes "worktree_pruned_at"
    ∷ codes "last_used_at"
    ∷ []

abbrev pub application_tables : List Text
application_tables = codes "thread_bindings" ∷ codes "tasks" ∷ codes "active_tasks" ∷ []

abbrev pub task_worktree_metadata_version : ℕ
task_worktree_metadata_version = 2

module _ {D : Type 0} (schema : Schema D) where
  abbrev pub has_table : Text → Database D → Bool
  has_table name s = schema.exists name s.rest

  -- `tableExists` for a table besides `schema_migrations`.
  unfoldable pub table_exists : Text → Action (Database D) Bool
  table_exists name =
      or_wrap (codes "query sqlite table " ++ (schema.quote name ++ codes " existence"))
        (do call; read (has_table name))

  -- `tableExists` for `schema_migrations`.
  unfoldable pub schema_exists : Action (Database D) Bool
  schema_exists =
      or_wrap
        (codes "query sqlite table "
          ++ (schema.quote (codes "schema_migrations") ++ codes " existence"))
        (do call; read (λ s. is_some s.applied))

  unfoldable pub any_table_exists : List Text → Action (Database D) Bool
  unfolding table_exists
  any_table_exists [] = succeed false
  any_table_exists (name ∷ names) =
      table_exists name >>= λ exists. if exists then succeed true else any_table_exists names

  abbrev pub application_tables_exist : Action (Database D) Bool
  application_tables_exist = any_table_exists application_tables

  unfoldable pub table_column_names : Text → Action (Database D) (List Text)
  table_column_names name =
      or_wrap (codes "query sqlite table " ++ (schema.quote name ++ codes " info"))
        (do call; read (λ s. schema.columns name s.rest))

  abbrev pub backfilled : Action (Database D) (List ℕ)
  backfilled = do
    or_wrap (codes "backfill legacy task branch names during bootstrap") call
    write (λ s. record s { rest = schema.backfill s.rest })
    succeed (1 ∷ task_worktree_metadata_version ∷ [])

  abbrev pub versions_for : List Text → Action (Database D) (List ℕ)
  versions_for columns =
      if has_all_columns columns legacy_task_worktree_columns then backfilled else succeed (1 ∷ [])

  abbrev pub versions_if : Bool → Action (Database D) (List ℕ)
  versions_if supported =
      if supported
      then table_column_names (codes "tasks") >>= versions_for
      else fail (message (codes "bootstrap legacy sqlite schema: unsupported legacy table set"))

  unfoldable pub detect_legacy_satisfied_versions : Action (Database D) (List ℕ)
  unfolding table_exists table_column_names
  detect_legacy_satisfied_versions = table_exists (codes "thread_bindings") >>= λ bindings.
      table_exists (codes "tasks") >>= λ tasks.
      table_exists (codes "active_tasks") >>= λ active. versions_if (bindings && tasks && active)

  abbrev pub record_version : ℕ → Action (Database D) (Unit {0})
  record_version version =
      or_wrap (codes "record legacy sqlite migration version " ++ decimal version)
        (do call; λ s. store_rows s (insert_or_ignore (row_at s version) s.applied))

  unfoldable pub record_versions : List ℕ → Action (Database D) (Unit {0})
  record_versions [] = succeed tt
  record_versions (version ∷ versions) = record_version version >> record_versions versions

  unfoldable pub bootstrap_legacy_schema_migrations : Action (Database D) (Unit {0})
  unfolding detect_legacy_satisfied_versions record_versions
  bootstrap_legacy_schema_migrations =
      ensure_schema_migrations_table >> (detect_legacy_satisfied_versions >>= record_versions)

  abbrev pub run_script : MigrationFile → Action (Database D) (Unit {0})
  run_script file =
      or_wrap (codes "execute sqlite migration " ++ file.name)
        (do call; λ s. stored_rest s (schema.run_script file.sql s.rest))

  abbrev pub record_migration : MigrationFile → Action (Database D) (Unit {0})
  record_migration file =
      or_wrap (codes "record sqlite migration " ++ file.name)
        (do call; λ s. store_rows s (insert_row (row_at s file.version) s.applied))

  unfoldable pub apply_migration : MigrationFile → Action (Database D) (Unit {0})
  apply_migration file =
      or_wrap (codes "begin sqlite migration " ++ file.name) call
      >> transaction (
          run_script file
          >> (record_migration file
              >> or_wrap (codes "commit sqlite migration " ++ file.name) call))

  -- The loop over the files, with the versions that were read before it.
  unfoldable pub apply_missing :
      List MigrationRow → List MigrationFile → Action (Database D) (Unit {0})
  unfolding apply_migration
  apply_missing applied [] = succeed tt
  apply_missing applied (file ∷ files) =
      if has_version file.version applied
      then apply_missing applied files
      else apply_migration file >> apply_missing applied files

  abbrev pub bootstrap_if : Bool → Action (Database D) (Unit {0})
  bootstrap_if is_legacy = if is_legacy then bootstrap_legacy_schema_migrations else succeed tt

  abbrev pub migrate_files : List MigrationFile → Action (Database D) (Unit {0})
  migrate_files files = schema_exists >>= λ exists. application_tables_exist >>= λ legacy.
      bootstrap_if (not exists && legacy)
      >> (ensure_schema_migrations_table
          >> (applied_migration_versions >>= λ applied. apply_missing applied files))

  unfoldable pub migrate : Result (List Entry) → Action (Database D) (Unit {0})
  unfolding load_migration_files ensure_schema_migrations_table applied_migration_versions
      schema_exists any_table_exists bootstrap_legacy_schema_migrations apply_missing
  migrate entries = of_result (load_migration_files schema.quote entries) >>= migrate_files
