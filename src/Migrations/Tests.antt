-- ===== src/Migrations/Tests.antt =====
-- Runs of migrations over a database whose tables are the scripts that were run.
use claw.Prelude.{◌≡◌, refl, false, if◌then◌else◌, none, some, List, [], ◌∷◌, first}
use claw.Prelude.Text.{Text, codes, text_eq}
use claw.Errors.{Result, ok, err, message}
use claw.Migrations.{Entry, Database, Schema, parse_migration_version}
use claw.Migrations.Run.{is_some, migrate}
use claw.Migrations.Again.{Ends, calm, migrate-Ends}

-- A script fails when its table is there.
abbrev schema : Schema (List Text)
schema = record {
  exists = λ name tables. is_some (first (text_eq name) tables);
  columns = λ name tables. [];
  run_script = λ sql tables.
      if is_some (first (text_eq sql) tables)
      then err (message (codes "table exists"))
      else ok (sql ∷ tables);
  backfill = λ tables. tables;
  quote = λ t. t;
}

abbrev entries : Result (List Entry)
entries = ok (
    record { name = codes "0002_daily.sql"; is_dir = false; content = ok (codes "daily") }
    ∷ record { name = codes "README.md"; is_dir = false; content = ok (codes "text") }
    ∷ record { name = codes "0001_initial.sql"; is_dir = false; content = ok (codes "tasks") }
    ∷ [])

abbrev fresh : Database (List Text)
fresh = record { applied = none; rest = []; now = 5; answers = [] }

-- The files are run in the order of their versions.
migrates : (migrate schema entries fresh).1 ≡ record {
  applied =
      some (record { version = 1; applied_at = 5 } ∷ record { version = 2; applied_at = 5 } ∷ []);
  rest = codes "daily" ∷ codes "tasks" ∷ [];
  now = 5;
  answers = [];
}
unfolding migrate claw.Prelude.Text.text_eq claw.Prelude.first codes claw.Migrations.Run.call
    claw.Migrations.atoi claw.Migrations.digits_value claw.Prelude.select
    claw.Migrations.Run.has_version claw.Prelude.Text.is_empty
migrates = refl

version_of_name : parse_migration_version (λ t. t) (codes "-12_x.sql") ≡ ok 18446744073709551604
unfolding parse_migration_version codes
version_of_name = refl

migrate-Ends_example :
    Ends schema entries fresh (migrate schema entries fresh)
    × ((migrate schema entries fresh).0 ≡ ok tt
        → migrate schema entries (calm (migrate schema entries fresh).1)
          ≡ (ok tt, calm (migrate schema entries fresh).1))
migrate-Ends_example = migrate-Ends schema entries fresh
