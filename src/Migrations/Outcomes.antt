-- ===== src/Migrations/Outcomes.antt =====
-- internal/store/sqlite/migrate.go: how a migration ends, and what a second one does.
use claw.Prelude.{
  ◌≡◌, refl, sym, ap, subst, ◌∙◌, inl, inr, Bool, true, false, ◌&&◌, not, Option, none, some, List,
  [],
}
use claw.Prelude.Text.{Text}
use claw.Errors.{Error, Result, ok, err, ◌>>◌, ◌>>=◌, continue_with, wrapped}
use claw.Migrations.{MigrationFile, Entry, MigrationRow, Database, Schema, load_migration_files}
use claw.Migrations.Run.{
  is_some, or_empty, ensure_schema_migrations_table, rows_or_missing, applied_migration_versions,
  schema_exists, application_tables, bootstrap_if, apply_missing, migrate_files,
}
use claw.Migrations.Pending.{Same, call-cases, missing, Applies, apply_missing-Applies}
use claw.Migrations.Adoption.{
  Same-refl, Same-trans, ReadsAs, read-ReadsAs, is_legacy, any_table, any_table_exists-ReadsAs,
  Adopts, bootstrap-Adopts,
}

module _ {D : Type 0} (schema : Schema D) where
  -- What the part in front of the loop may have done: nothing, made the table of migrations, or
  -- taken over legacy tables that had none.
  pub data Prepared (s : Database D) : Database D → Type 0 where
    kept : (v : Database D) → Same s v → Prepared s v
    made :
        (v : Database D) → s.applied ≡ none → v.applied ≡ some [] → v.rest ≡ s.rest → Prepared s v
    adopted :
        (v : Database D)
        → s.applied ≡ none
        → is_legacy schema s.rest ≡ true
        → Adopts schema s v
        → Prepared s v

  -- The ways a migration ends: with an error in front of the loop, or as the loop ends.
  pub data Migrates (files : List MigrationFile) (s : Database D)
      : Result (Unit {0}) × Database D → Type 0 where
    early : (e : Error) (v : Database D) → Prepared s v → Migrates files s (err e, v)
    looped :
        (v : Database D) (rows : List MigrationRow) (r : Result (Unit {0}) × Database D)
        → Prepared s v
        → v.applied ≡ some rows
        → Applies schema (missing rows files) rows v.rest r
        → Migrates files s r

  Prepared-Same : (s v w : Database D) → Prepared s v → Same v w → Prepared s w
  Prepared-Same s v w (kept _ k) same = kept w (Same-trans s v w k same)
  Prepared-Same s v w (made _ fresh h k) same = made w fresh (same.applied ∙ h) (same.rest ∙ k)
  Prepared-Same s v w (adopted _ fresh legacy h) same = adopted w fresh legacy (record {
    rows = subst claw.Migrations.Adoption.LegacyRows (sym same.applied) h.rows;
    rest = elim h.rest [ inl k ↦ inl (same.rest ∙ k) | inr k ↦ inr (same.rest ∙ k) ];
  })

  Prepared-ensured :
      (s v : Database D) (o : Option (List MigrationRow))
      → v.applied ≡ o
      → Prepared s v
      → Prepared s (record v { applied = or_empty o })
  Prepared-ensured s v (some rows) e p =
      Prepared-Same s v _ p (record { applied = sym e; rest = refl })
  Prepared-ensured s v none e (kept _ k) = made _ (sym k.applied ∙ e) refl k.rest
  Prepared-ensured s v none e (made _ fresh h k) = made _ fresh refl k
  Prepared-ensured s v none e (adopted _ fresh legacy h) =
      adopted _ fresh legacy (record { rows = tt; rest = h.rest })

  module _ (files : List MigrationFile) (s : Database D) where
    rows_read :
        (w : Database D) (o : Option (List MigrationRow)) (t : Text)
        → Prepared s w
        → w.applied ≡ o
        → Migrates files s (
            continue_with
              (λ applied. apply_missing schema applied files)
              (wrapped t (rows_or_missing o, w)))
    rows_read w none t p e = early _ w p
    rows_read w (some rows) t p e =
        looped w rows _ p e (apply_missing-Applies schema files rows rows w.rest w e refl)

    loop-Migrates :
        (v : Database D)
        → Prepared s v
        → Migrates files s
            ((applied_migration_versions >>= λ applied. apply_missing schema applied files) v)
    unfolding applied_migration_versions
    loop-Migrates v p = elim (call-cases v) [
      | inr (y, w, e, same) ↦ rw e (early _ w (Prepared-Same s v w p same))
      | inl (w, e, same) ↦ rw e (rows_read w w.applied _ (Prepared-Same s v w p same) refl)
    ]

    ensured-Migrates :
        (v : Database D)
        → Prepared s v
        → Migrates files s (
            (ensure_schema_migrations_table
                >> (applied_migration_versions >>= λ applied. apply_missing schema applied files))
              v)
    unfolding ensure_schema_migrations_table
    ensured-Migrates v p = elim (call-cases v) [
      | inr (y, w, e, same) ↦ rw e (early _ w (Prepared-Same s v w p same))
      | inl (w, e, same) ↦ rw e (
          loop-Migrates (record w { applied = or_empty w.applied })
            (Prepared-ensured s w w.applied refl (Prepared-Same s v w p same)))
    ]

    bootstrapped-Migrates :
        (r : Result (Unit {0}) × Database D)
        → Prepared s r.1
        → Migrates files s (
            continue_with
              (λ x.
                ensure_schema_migrations_table
                >> (applied_migration_versions >>= λ applied. apply_missing schema applied files))
              r)
    bootstrapped-Migrates (ok x, v) p = ensured-Migrates v p
    bootstrapped-Migrates (err e, v) p = early e v p

  Adopts-Same : (s v w : Database D) → Same s v → Adopts schema v w → Adopts schema s w
  Adopts-Same s v w same h = record {
    rows = h.rows;
    rest = elim h.rest [
      | inl k ↦ inl (k ∙ same.rest)
      | inr k ↦ inr (k ∙ ap schema.backfill same.rest)
    ];
  }

  bootstrap_if-Prepared :
      (s v : Database D) (o : Option (List MigrationRow)) (legacy : Bool)
      → Same s v
      → s.applied ≡ o
      → is_legacy schema s.rest ≡ legacy
      → Prepared s (bootstrap_if schema (not (is_some o) && legacy) v).1
  bootstrap_if-Prepared s v (some rows) legacy same e h = kept v same
  bootstrap_if-Prepared s v none false same e h = kept v same
  bootstrap_if-Prepared s v none true same e h =
      adopted _ e h (Adopts-Same s v _ same (bootstrap-Adopts schema v (same.applied ∙ e)))

  schema_exists-ReadsAs : (s : Database D) → ReadsAs (schema_exists schema) s (is_some s.applied)
  unfolding schema_exists
  schema_exists-ReadsAs s =
      read-ReadsAs _ (λ v. is_some v.applied) s (λ v same. ap (λ o. is_some o) same.applied)

  pub migrate_files-Migrates :
      (files : List MigrationFile) (s : Database D)
      → Migrates files s (migrate_files schema files s)
  migrate_files-Migrates files s = elim (schema_exists-ReadsAs s) [
    | inr (y, v, e, same) ↦ rw e (early _ v (kept v same))
    | inl (v, e, same) ↦ rw e (elim (any_table_exists-ReadsAs schema application_tables v) [
      | inr (y, w, e', same') ↦ rw e' (early _ w (kept w (Same-trans s v w same same')))
      | inl (w, e', same') ↦
          rw (e', same.rest)
            (bootstrapped-Migrates files s _
              (bootstrap_if-Prepared s w s.applied _ (Same-trans s v w same same') refl refl))
    ])
  ]
