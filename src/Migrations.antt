-- ===== src/Migrations.antt =====
-- internal/store/sqlite/migrate.go: the migration files, and the database as the migrations see it.
-- The embedded directory, and what SQL scripts and the schema queries do to the tables besides
-- `schema_migrations`, are parameters. Versions are int64 in two's complement.
pub mod Run
pub mod Pending
pub mod Adoption
pub mod Outcomes
pub mod Again
mod Tests
use claw.Prelude.{
  ℕ, ◌+◌, ◌-◌, ◌*◌, ◌%◌, ◌^◌, ltb, leb, ◌==◌, Bool, true, false, ◌&&◌, ◌||◌, not, Option, none,
  some, List, [], ◌∷◌, ◌++◌, if◌then◌else◌,
}
use claw.Prelude.Text.{Text, codes, is_empty, text_eq}
use claw.Errors.{Error, message, wrap, Result, ok, err, Action}
use claw.Types.{Time}
use claw.Store.Tasks.{order_by}

pub record MigrationFile : Type 0 where
  pub version : ℕ
  pub name : Text
  pub sql : Text

-- An entry of the directory of migrations, with what reading it gives.
pub record Entry : Type 0 where
  pub name : Text
  pub is_dir : Bool
  pub content : Result Text

-- A row of `schema_migrations`.
pub record MigrationRow : Type 0 where
  pub version : ℕ
  pub applied_at : Time

-- `applied` is the table `schema_migrations`, `none` when it is not there, `rest` the other tables.
pub record Database (D : Type 0) : Type 0 where
  pub applied : Option (List MigrationRow)
  pub rest : D
  pub now : Time
  pub answers : List (Option Error)

-- What SQLite does to the other tables: the scripts of the migrations, the queries of the schema
-- and the update that fills in the branches of legacy tasks.
pub record Schema (D : Type 0) : Type 0 where
  pub exists : Text → D → Bool
  pub columns : Text → D → List Text
  pub run_script : Text → D → Result D
  pub backfill : D → D
  pub quote : Text → Text

-- What `strconv.Atoi` makes of a text.
pub data Parsed : Type 0 where
  value : ℕ → Parsed
  invalid_syntax : Parsed
  out_of_range : Parsed

abbrev pub is_digit : ℕ → Bool
is_digit c = leb 48 c && leb c 57

-- The loop over the digits of an unsigned number of 64 bits.
unfoldable pub digits_value : ℕ → Text → Parsed
digits_value n [] = value n
digits_value n (c ∷ s) =
    let next = n * 10 + (c - 48) in
    let rest = digits_value next s in
    if not (is_digit c) then invalid_syntax else if leb (2 ^ 64) next then out_of_range else rest

abbrev pub unsigned_value : Text → Parsed
unsigned_value [] = invalid_syntax
unsigned_value (c ∷ s) = digits_value 0 (c ∷ s)

abbrev pub positive : Parsed → Parsed
positive (value n) = if ltb n (2 ^ 63) then value n else out_of_range
positive invalid_syntax = invalid_syntax
positive out_of_range = out_of_range

abbrev pub negative : Parsed → Parsed
negative (value n) = if leb n (2 ^ 63) then value ((2 ^ 64 - n) % 2 ^ 64) else out_of_range
negative invalid_syntax = invalid_syntax
negative out_of_range = out_of_range

unfoldable pub atoi : Text → Parsed
unfolding digits_value
atoi [] = invalid_syntax
atoi (c ∷ s) =
    if c == 45
    then negative (unsigned_value s)
    else positive (unsigned_value (if c == 43 then s else c ∷ s))

-- strings.Cut at an underscore, the part in front of it.
unfoldable pub before_underscore : Text → Option Text
before_underscore [] = none
before_underscore (c ∷ s) =
    if c == 95
    then some []
    else elim (before_underscore s) [ none ↦ none | some prefix ↦ some (c ∷ prefix) ]

-- filepath.Ext at a name without separators.
unfoldable pub extension : Text → Text
extension [] = []
extension (c ∷ s) = let rest = extension s in if c == 46 && is_empty rest then c ∷ s else rest

module _ (quote : Text → Text) where
  abbrev pub version_text : Text → Text
  version_text name = codes "parse migration version from " ++ quote name

  abbrev pub atoi_error : Text → Text → Error
  atoi_error prefix reason = wrap (codes "strconv.Atoi: parsing " ++ quote prefix) (message reason)

  abbrev pub version_result : Text → Text → Parsed → Result ℕ
  version_result name prefix (value n) = ok n
  version_result name prefix invalid_syntax =
      err (wrap (version_text name) (atoi_error prefix (codes "invalid syntax")))
  version_result name prefix out_of_range =
      err (wrap (version_text name) (atoi_error prefix (codes "value out of range")))

  abbrev pub version_of : Text → Option Text → Result ℕ
  version_of name none = err (message (version_text name ++ codes ": missing underscore separator"))
  version_of name (some prefix) = version_result name prefix (atoi prefix)

  unfoldable pub parse_migration_version : Text → Result ℕ
  unfolding before_underscore atoi
  parse_migration_version name = version_of name (before_underscore name)

  abbrev pub read_file : Text → ℕ → Result Text → Result MigrationFile
  read_file name version (ok sql) = ok (record { version = version; name = name; sql = sql })
  read_file name version (err e) = err (wrap (codes "read sqlite migration " ++ quote name) e)

  abbrev pub file_of : Entry → Result ℕ → Result MigrationFile
  file_of entry (ok version) = read_file entry.name version entry.content
  file_of entry (err e) = err e

  abbrev pub add_file :
      Result MigrationFile → Result (List MigrationFile) → Result (List MigrationFile)
  add_file (err e) rest = err e
  add_file (ok file) (err e) = err e
  add_file (ok file) (ok files) = ok (file ∷ files)

  -- The loop over the entries; those that are no SQL files are passed over.
  unfoldable pub read_files : List Entry → Result (List MigrationFile)
  unfolding parse_migration_version extension
  read_files [] = ok []
  read_files (entry ∷ entries) =
      let rest = read_files entries in
      if entry.is_dir || not (text_eq (extension entry.name) (codes ".sql"))
      then rest
      else add_file (file_of entry (parse_migration_version entry.name)) rest

  -- The sign of the difference of two versions, which wraps around.
  abbrev pub comes_before : MigrationFile → MigrationFile → Bool
  comes_before left right = leb (2 ^ 63) ((left.version + (2 ^ 64 - right.version)) % 2 ^ 64)

  abbrev pub sorted_files : Result (List MigrationFile) → Result (List MigrationFile)
  sorted_files (ok files) = ok (order_by comes_before files)
  sorted_files (err e) = err e

  unfoldable pub load_migration_files : Result (List Entry) → Result (List MigrationFile)
  unfolding read_files order_by
  load_migration_files (ok entries) = sorted_files (read_files entries)
  load_migration_files (err e) = err (wrap (codes "read sqlite migrations") e)
