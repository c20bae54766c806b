-- ===== src/Migrations/Pending.antt =====
-- internal/store/sqlite/migrate.go: what the loop over the migration files does, whatever the driver
-- answers.
use claw.Prelude.{
  ◌≡◌, refl, sym, ap, ◌∙◌, ◌⊎◌, inl, inr, false, Option, none, some, List, [], ◌∷◌, ◌++◌, select,
  not, Bool-cases,
}
use claw.Prelude.Text.{codes}
use claw.Errors.{Error, Result, ok, err, ◌>>◌, or_wrap, continue_with, wrapped}
use claw.Migrations.{MigrationFile, MigrationRow, Database, Schema}
use claw.Migrations.Run.{
  answered, call, rolled_back, has_version, stored_rest, row_at, run_script, record_migration,
  apply_migration, apply_missing,
}

pub record Same {D : Type 0} (s v : Database D) : Type 0 where
  pub applied : v.applied ≡ s.applied
  pub rest : v.rest ≡ s.rest

-- A call of the driver goes through or is refused.
pub call-cases :
    {D : Type 0} (s : Database D)
    → ((v : Database D) × (call s ≡ (ok tt, v)) × Same s v)
      ⊎ ((e : Error) × (v : Database D) × (call s ≡ (err e, v)) × Same s v)
unfolding call
call-cases s = answered-cases s.answers
  where
    answered-cases :
        (l : List (Option Error))
        → ((v : Database _) × (answered s l ≡ (ok tt, v)) × Same s v)
          ⊎ ((e : Error) × (v : Database _) × (answered s l ≡ (err e, v)) × Same s v)
    answered-cases [] = inl (s, refl, record { applied = refl; rest = refl })
    answered-cases (none ∷ l) = inl (_, refl, record { applied = refl; rest = refl })
    answered-cases (some e ∷ l) = inr (e, _, refl, record { applied = refl; rest = refl })

-- The files whose version has no row.
abbrev pub missing : List MigrationRow → List MigrationFile → List MigrationFile
missing rows = select (λ file. not (has_version file.version rows))

module _ {D : Type 0} (schema : Schema D) where
  -- Whether the one file is applied, script and row, or neither is.
  pub data Applied (file : MigrationFile) (rows : List MigrationRow) (rest : D)
      : Result (Unit {0}) × Database D → Type 0 where
    both :
        (row : MigrationRow) (rest' : D) (s : Database D)
        → has_version file.version rows ≡ false
        → row.version ≡ file.version
        → schema.run_script file.sql rest ≡ ok rest'
        → s.applied ≡ some (rows ++ row ∷ [])
        → s.rest ≡ rest'
        → Applied file rows rest (ok tt, s)
    neither :
        (e : Error) (s : Database D)
        → s.applied ≡ some rows
        → s.rest ≡ rest
        → Applied file rows rest (err e, s)

  -- The files are applied in order, and the loop ends behind the last one or stops in between.
  pub data Applies
      : List MigrationFile → List MigrationRow → D → Result (Unit {0}) × Database D → Type 0 where
    all :
        (rows : List MigrationRow) (rest : D) (s : Database D)
        → s.applied ≡ some rows
        → s.rest ≡ rest
        → Applies [] rows rest (ok tt, s)
    stops :
        (file : MigrationFile) (files : List MigrationFile) (rows : List MigrationRow) (rest : D)
        (e : Error) (s : Database D)
        → s.applied ≡ some rows
        → s.rest ≡ rest
        → Applies (file ∷ files) rows rest (err e, s)
    runs :
        (file : MigrationFile) (files : List MigrationFile) (row : MigrationRow)
        (rows : List MigrationRow) (rest rest' : D) (r : Result (Unit {0}) × Database D)
        → has_version file.version rows ≡ false
        → row.version ≡ file.version
        → schema.run_script file.sql rest ≡ ok rest'
        → Applies files (rows ++ row ∷ []) rest' r
        → Applies (file ∷ files) rows rest r

  module _ (file : MigrationFile) (rows : List MigrationRow) (before : Database D)
      (had : before.applied ≡ some rows) where
    commit-Applied :
        (rest' : D) (s : Database D) (row : MigrationRow)
        → has_version file.version rows ≡ false
        → row.version ≡ file.version
        → schema.run_script file.sql before.rest ≡ ok rest'
        → s.applied ≡ some (rows ++ row ∷ [])
        → s.rest ≡ rest'
        → Applied file rows before.rest
            (rolled_back before (or_wrap (codes "commit sqlite migration " ++ file.name) call s))
    commit-Applied rest' s row new is_row ran stored left = elim (call-cases s) [
      | inl (v, e, same) ↦
          rw e (both row rest' v new is_row ran (same.applied ∙ stored) (same.rest ∙ left))
      | inr (x, v, e, same) ↦ rw e (neither _ _ had refl)
    ]

    record-Applied :
        (rest' : D) (s : Database D)
        → schema.run_script file.sql before.rest ≡ ok rest'
        → s.applied ≡ some rows
        → s.rest ≡ rest'
        → Applied file rows before.rest (
            rolled_back before (
              (record_migration schema file
                  >> or_wrap (codes "commit sqlite migration " ++ file.name) call)
                s))
    record-Applied rest' s ran same_rows left = elim (call-cases s) [
      | inl (v, e, same) ↦ rw e (
          rw (same.applied ∙ same_rows) (elim (Bool-cases (has_version file.version rows)) [
            | inl taken ↦ rw taken (neither _ _ had refl)
            | inr new ↦ rw new (
                commit-Applied rest' _ (row_at v file.version) new refl ran refl (same.rest ∙ left))
          ]))
      | inr (x, v, e, same) ↦ rw e (neither _ _ had refl)
    ]

    script-Applied :
        (s : Database D) (r : Result D)
        → Same before s
        → schema.run_script file.sql s.rest ≡ r
        → Applied file rows before.rest (
            rolled_back before (
              continue_with
                (λ x.
                  record_migration schema file
                  >> or_wrap (codes "commit sqlite migration " ++ file.name) call)
                (wrapped (codes "execute sqlite migration " ++ file.name) (stored_rest s r))))
    script-Applied s (ok rest') same ran =
        record-Applied rest' (record s { rest = rest' })
          (ap (schema.run_script file.sql) (sym same.rest) ∙ ran) (same.applied ∙ had) refl
    script-Applied s (err e) same ran = neither _ _ had refl

    body-Applied : Applied file rows before.rest (
        rolled_back before (
          (run_script schema file
              >> (record_migration schema file
                  >> or_wrap (codes "commit sqlite migration " ++ file.name) call))
            before))
    body-Applied = elim (call-cases before) [
      | inl (v, e, same) ↦ rw e (script-Applied v _ same refl)
      | inr (x, v, e, same) ↦ rw e (neither _ _ had refl)
    ]

  pub apply_migration-Applied :
      (file : MigrationFile) (rows : List MigrationRow) (s : Database D)
      → s.applied ≡ some rows
      → Applied file rows s.rest (apply_migration schema file s)
  unfolding apply_migration
  apply_migration-Applied file rows s had = elim (call-cases s) [
    | inl (v, e, same) ↦ rw (e, ← same.rest) (body-Applied file rows v (same.applied ∙ had))
    | inr (x, v, e, same) ↦ rw e (neither _ v (same.applied ∙ had) same.rest)
  ]

  -- The loop, where the versions that were read are those of some of the rows, and the files that
  -- lack a row are still to come.
  applied_before :
      (file : MigrationFile) (files : List MigrationFile) (rows : List MigrationRow) (rest : D)
      (k : Database D → Result (Unit {0}) × Database D) (r : Result (Unit {0}) × Database D)
      → Applied file rows rest r
      → ((row : MigrationRow) (rest' : D) (v : Database D)
          → v.applied ≡ some (rows ++ row ∷ [])
          → v.rest ≡ rest'
          → Applies files (rows ++ row ∷ []) rest' (k v))
      → Applies (file ∷ files) rows rest (continue_with (λ x. k) r)
  applied_before file files rows rest k _ (both row rest' v new is_row ran stored left) more =
      runs file files row rows rest rest' _ new is_row ran (more row rest' v stored left)
  applied_before file files rows rest k _ (neither e v stored left) more =
      stops file files rows rest e v stored left

  pub apply_missing-Applies :
      (files : List MigrationFile) (read rows : List MigrationRow) (rest : D) (s : Database D)
      → s.applied ≡ some rows
      → s.rest ≡ rest
      → Applies (missing read files) rows rest (apply_missing schema read files s)
  unfolding apply_missing select
  apply_missing-Applies [] read rows rest s had left = all rows rest s had left
  apply_missing-Applies (file ∷ files) read rows rest s had left =
      elim (Bool-cases (has_version file.version read)) [
        | inl h ↦ rw h (apply_missing-Applies files read rows rest s had left)
        | inr h ↦
            rw (h, ← left)
              (applied_before file (missing read files) rows s.rest
                (apply_missing schema read files) _ (apply_migration-Applied file rows s had)
                (λ row rest' v stored kept.
                  apply_missing-Applies files read (rows ++ row ∷ []) rest' v stored kept))
      ]
