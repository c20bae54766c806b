-- ===== src/Migrations/Again.antt =====
-- internal/store/sqlite/migrate.go: a migration that succeeded has recorded every file, so that the
-- next one has nothing to do.
use claw.Prelude.{
  ◌≡◌, refl, sym, subst, inl, inr, ℕ, Bool, true, false, not, some, List, [], ◌∷◌, ◌++◌, arith,
  Bool-cases, if◌then◌else◌, All, select,
}
use claw.Prelude.Text.{Text}
use claw.Errors.{Error, Result, ok, err, ◌>>=◌, of_result}
use claw.Types.{Time}
use claw.Migrations.{MigrationFile, Entry, MigrationRow, Database, Schema, load_migration_files}
use claw.Migrations.Run.{
  call, has_version, ensure_schema_migrations_table, applied_migration_versions, schema_exists,
  table_exists, any_table_exists, application_tables, apply_missing, migrate_files, migrate,
}
use claw.Migrations.Pending.{missing, Applies}
use claw.Migrations.Adoption.{any_table}
use claw.Migrations.Outcomes.{Migrates, migrate_files-Migrates}

abbrev pub AllRecorded : List MigrationRow → List MigrationFile → Type 0
AllRecorded rows files = All (λ file. has_version file.version rows ≡ true) files

has_version-append :
    (n : ℕ) (rows more : List MigrationRow)
    → has_version n rows ≡ true
    → has_version n (rows ++ more) ≡ true
unfolding has_version
has_version-append n [] more h = absurd (ground (arith, h))
has_version-append n (row ∷ rows) more h = ground (arith, has_version-append n rows more)

has_version-last :
    (row : MigrationRow) (rows : List MigrationRow)
    → has_version row.version (rows ++ row ∷ []) ≡ true
unfolding has_version
has_version-last row [] = ground arith
has_version-last row (other ∷ rows) = ground (arith, has_version-last row rows)

-- A database in which some rows are recorded, with those that were there and those of the files.
record Recorded {D : Type 0} (rows : List MigrationRow) (files : List MigrationFile)
    (s : Database D) : Type 0 where
  now_rows : List MigrationRow
  applied : s.applied ≡ some now_rows
  more : (n : ℕ) → has_version n rows ≡ true → has_version n now_rows ≡ true
  all_files : AllRecorded now_rows files

module _ {D : Type 0} (schema : Schema D) where
  Applies-Recorded :
      (files : List MigrationFile) (rows : List MigrationRow) (rest : D)
      (r : Result (Unit {0}) × Database D)
      → Applies schema files rows rest r
      → r.0 ≡ ok tt
      → Recorded rows files r.1
  Applies-Recorded _ rows rest _ (Applies.all _ _ s had left) h = record {
    now_rows = rows;
    applied = had;
    more = λ n k. k;
    all_files = tt;
  }
  Applies-Recorded _ rows rest _ (Applies.stops file files _ _ e s had left) h =
      absurd (ground (arith, h))
  Applies-Recorded _ rows rest r (Applies.runs file files row _ _ rest' _ new is_row ran l) h =
      let d = Applies-Recorded files (rows ++ row ∷ []) rest' r l h in
      record {
        now_rows = d.now_rows;
        applied = d.applied;
        more = λ n k. d.more n (has_version-append n rows (row ∷ []) k);
        all_files = (
          subst (λ n. has_version n d.now_rows ≡ true) is_row
              (d.more row.version (has_version-last row rows)),
          d.all_files,
        );
      }

-- A file has its row, by the rows from before or as one that was missing.
missing_or_there :
    (file : MigrationFile) (others files : List MigrationFile) (now_rows : List MigrationRow)
    (there : Bool)
    → (there ≡ true → has_version file.version now_rows ≡ true)
    → (AllRecorded now_rows others → AllRecorded now_rows files)
    → AllRecorded now_rows (if not there then file ∷ others else others)
    → AllRecorded now_rows (file ∷ files)
missing_or_there file others files now_rows true k rest h = (k refl, rest h)
missing_or_there file others files now_rows false k rest (h, hs) = (h, rest hs)

all_recorded :
    (files : List MigrationFile) (rows now_rows : List MigrationRow)
    → ((n : ℕ) → has_version n rows ≡ true → has_version n now_rows ≡ true)
    → AllRecorded now_rows (missing rows files)
    → AllRecorded now_rows files
unfolding select
all_recorded [] rows now_rows more h = tt
all_recorded (file ∷ files) rows now_rows more h =
    missing_or_there file (missing rows files) files now_rows (has_version file.version rows)
      (more file.version) (all_recorded files rows now_rows more) h

-- A database with these rows whose driver goes through.
abbrev pub settled : {D : Type 0} → List MigrationRow → D → Time → Database D
settled rows rest now = record { applied = some rows; rest = rest; now = now; answers = [] }

-- The database behind a migration, with a driver that goes through.
abbrev pub calm : {D : Type 0} → Database D → Database D
calm s = record s { answers = [] }

module _ {D : Type 0} (schema : Schema D) (rows : List MigrationRow) (rest : D) (now : Time) where
  any_table_exists-settled :
      (names : List Text)
      → any_table_exists schema names (settled rows rest now)
        ≡ (ok (any_table schema names rest), settled rows rest now)
  unfolding any_table_exists table_exists call
  any_table_exists-settled [] = refl
  any_table_exists-settled (name ∷ names) = elim (Bool-cases (schema.exists name rest)) [
    | inl h ↦ rw h refl
    | inr h ↦ rw h (any_table_exists-settled names)
  ]

  apply_missing-settled :
      (files : List MigrationFile) (s : Database D)
      → AllRecorded rows files
      → apply_missing schema rows files s ≡ (ok tt, s)
  unfolding apply_missing
  apply_missing-settled [] s h = refl
  apply_missing-settled (file ∷ files) s (h, hs) = rw h (apply_missing-settled files s hs)

  migrate_files-settled :
      (files : List MigrationFile)
      → AllRecorded rows files
      → migrate_files schema files (settled rows rest now) ≡ (ok tt, settled rows rest now)
  unfolding schema_exists ensure_schema_migrations_table applied_migration_versions call
  migrate_files-settled files h =
      rw (any_table_exists-settled application_tables)
        (apply_missing-settled files (settled rows rest now) h)

-- How a migration ends, with the reading of the directory.
pub data Ends {D : Type 0} (schema : Schema D) (entries : Result (List Entry)) (s : Database D)
    : Result (Unit {0}) × Database D → Type 0 where
  unread :
      (e : Error)
      → load_migration_files schema.quote entries ≡ err e
      → Ends schema entries s (err e, s)
  migrated :
      (files : List MigrationFile) (r : Result (Unit {0}) × Database D)
      → load_migration_files schema.quote entries ≡ ok files
      → Migrates schema files s r
      → Ends schema entries s r

module _ {D : Type 0} (schema : Schema D) (s : Database D) where
  loaded-Ends :
      (entries : Result (List Entry)) (l : Result (List MigrationFile))
      → load_migration_files schema.quote entries ≡ l
      → Ends schema entries s ((of_result l >>= migrate_files schema) s)
  loaded-Ends entries (ok files) e = migrated files _ e (migrate_files-Migrates schema files s)
  loaded-Ends entries (err x) e = unread x e

  Migrates-again :
      (files : List MigrationFile) (r : Result (Unit {0}) × Database D)
      → Migrates schema files s r
      → r.0 ≡ ok tt
      → migrate_files schema files (calm r.1) ≡ (ok tt, calm r.1)
  Migrates-again files _ (Migrates.early e v p) h = absurd (ground (arith, h))
  Migrates-again files r (Migrates.looped v rows _ p had l) h =
      let d = Applies-Recorded schema (missing rows files) rows v.rest r l h in
      subst
        (λ o.
          migrate_files schema files
            (record { applied = o; rest = r.1.rest; now = r.1.now; answers = [] })
          ≡ (ok tt, record { applied = o; rest = r.1.rest; now = r.1.now; answers = [] }))
        (sym d.applied)
        (migrate_files-settled schema d.now_rows r.1.rest r.1.now files
          (all_recorded files rows d.now_rows d.more d.all_files))

  Ends-again :
      (entries : Result (List Entry)) (r : Result (Unit {0}) × Database D)
      → Ends schema entries s r
      → r.0 ≡ ok tt
      → migrate schema entries (calm r.1) ≡ (ok tt, calm r.1)
  unfolding migrate
  Ends-again entries _ (unread e l) h = absurd (ground (arith, h))
  Ends-again entries r (migrated files _ l m) h = rw l (Migrates-again files r m h)

-- Whatever the driver answers: a migration fails at a bad file and changes nothing; or it fails in front
-- of the loop, where it has at most made the table of migrations or taken over legacy tables that had
-- none; or the missing files are applied in order, each with its script and its row or with neither, up
-- to the first that fails. When it succeeds, a second one succeeds and changes nothing while the driver
-- goes through.
pub migrate-Ends :
    {D : Type 0} (schema : Schema D) (entries : Result (List Entry)) (s : Database D)
    → Ends schema entries s (migrate schema entries s)
      × ((migrate schema entries s).0 ≡ ok tt
          → migrate schema entries (calm (migrate schema entries s).1)
            ≡ (ok tt, calm (migrate schema entries s).1))
unfolding migrate
migrate-Ends schema entries s =
    let ends = loaded-Ends schema s entries (load_migration_files schema.quote entries) refl in
    (ends, λ h. Ends-again schema s entries _ ends h)
