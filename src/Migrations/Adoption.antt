-- ===== src/Migrations/Adoption.antt =====
-- internal/store/sqlite/migrate.go: the part in front of the loop, which takes over the tables of a
-- database that is older than `schema_migrations`.
use claw.Prelude.{
  ◌≡◌, refl, sym, ap, subst, ◌∙◌, ◌⊎◌, inl, inr, ℕ, Bool, true, false, ◌==◌, ◌||◌, ◌&&◌, Option,
  none, some, List, [], ◌∷◌, Bool-cases, All, All-append,
}
use claw.Prelude.Text.{Text, codes}
use claw.Errors.{Error, wrap, Result, ok, err, Action, ◌>>◌, ◌>>=◌, or_wrap, continue_with, wrapped}
use claw.Migrations.{MigrationRow, Database, Schema}
use claw.Migrations.Run.{
  call, read, or_empty, has_version, ensure_schema_migrations_table, table_exists, any_table_exists,
  table_column_names, has_all_columns, legacy_task_worktree_columns, application_tables,
  versions_for, versions_if, detect_legacy_satisfied_versions, record_versions, store_rows,
  insert_or_ignore, row_at, bootstrap_legacy_schema_migrations,
}
use claw.Migrations.Pending.{Same, call-cases}

module _ {D : Type 0} where
  pub Same-refl : (s : Database D) → Same s s
  Same-refl s = record { applied = refl; rest = refl }

  pub Same-trans : (s v w : Database D) → Same s v → Same v w → Same s w
  Same-trans s v w k l = record { applied = l.applied ∙ k.applied; rest = l.rest ∙ k.rest }

  -- What a read does that may be refused.
  abbrev pub ReadsAs : {A : Type 0} → Action (Database D) A → Database D → A → Type 0
  ReadsAs m s a =
      ((v : Database D) × (m s ≡ (ok a, v)) × Same s v)
      ⊎ ((e : Error) × (v : Database D) × (m s ≡ (err e, v)) × Same s v)

  pub read-ReadsAs :
      {A : Type 0} (x : Text) (f : Database D → A) (s : Database D)
      → ((v : Database D) → Same s v → f v ≡ f s)
      → ReadsAs (or_wrap x (call >> read f)) s (f s)
  read-ReadsAs x f s stable = elim (call-cases s) [
    | inl (v, e, same) ↦ inl (v, rw e (ap (λ a. (ok a, v)) (stable v same)), same)
    | inr (y, v, e, same) ↦ inr (wrap x y, v, rw e refl, same)
  ]

  pub reads_rule :
      {A B : Type 0} (P : Result B × Database D → Type 0) (m : Action (Database D) A)
      (k : A → Action (Database D) B) (s : Database D) (a : A)
      → ReadsAs m s a
      → ((v : Database D) → Same s v → P (k a v))
      → ((e : Error) (v : Database D) → Same s v → P (err e, v))
      → P ((m >>= k) s)
  reads_rule P m k s a (inl (v, e, same)) go stop = rw e (go v same)
  reads_rule P m k s a (inr (x, v, e, same)) go stop = rw e (stop x v same)

-- The versions that a bootstrap records.
abbrev pub is_legacy_version : ℕ → Bool
is_legacy_version n = n == 1 || n == 2

abbrev pub LegacyRows : Option (List MigrationRow) → Type 0
LegacyRows none = Unit
LegacyRows (some rows) = All (λ row. is_legacy_version row.version ≡ true) rows

module _ {D : Type 0} (schema : Schema D) where
  abbrev pub any_table : List Text → D → Bool
  any_table [] rest = false
  any_table (name ∷ names) rest = schema.exists name rest || any_table names rest

  abbrev pub is_legacy : D → Bool
  is_legacy rest = any_table application_tables rest

  pub table_exists-ReadsAs :
      (name : Text) (s : Database D)
      → ReadsAs (table_exists schema name) s (schema.exists name s.rest)
  unfolding table_exists
  table_exists-ReadsAs name s =
      read-ReadsAs _ (λ v. schema.exists name v.rest) s
        (λ v same. ap (schema.exists name) same.rest)

  pub any_table_exists-ReadsAs :
      (names : List Text) (s : Database D)
      → ReadsAs (any_table_exists schema names) s (any_table names s.rest)
  unfolding any_table_exists
  any_table_exists-ReadsAs [] s = inl (s, refl, Same-refl s)
  any_table_exists-ReadsAs (name ∷ names) s = elim (table_exists-ReadsAs name s) [
    | inr (x, v, e, same) ↦ inr (x, v, rw e refl, same)
    | inl (v, e, same) ↦ elim (Bool-cases (schema.exists name s.rest)) [
      | inl h ↦ inl (v, rw (e, h) refl, same)
      | inr h ↦ elim (any_table_exists-ReadsAs names v) [
        | inl (w, e', same') ↦ inl (
          w,
          rw (e, h) (e' ∙ ap (λ b. (ok (any_table names b), w)) same.rest),
          Same-trans s v w same same',
        )
        | inr (x, w, e', same') ↦ inr (x, w, rw (e, h) e', Same-trans s v w same same')
      ]
    ]
  ]

  -- What a database is after the part of the bootstrap that was gone through: only versions of
  -- legacy tables have rows, and the branches are filled in at most once.
  pub record Adopts (s v : Database D) : Type 0 where
    pub rows : LegacyRows v.applied
    pub rest : (v.rest ≡ s.rest) ⊎ (v.rest ≡ schema.backfill s.rest)

  pub data Detected (s : Database D) : Result (List ℕ) × Database D → Type 0 where
    refused : (e : Error) (v : Database D) → Same s v → Detected s (err e, v)
    detected :
        (versions : List ℕ) (v : Database D)
        → All (λ n. is_legacy_version n ≡ true) versions
        → v.applied ≡ s.applied
        → (v.rest ≡ s.rest) ⊎ (v.rest ≡ schema.backfill s.rest)
        → Detected s (ok versions, v)

  versions_for-Detected :
      (columns : List Text) (s v : Database D)
      → Same s v
      → Detected s (versions_for schema columns v)
  versions_for-Detected columns s v same =
      elim (Bool-cases (has_all_columns columns legacy_task_worktree_columns)) [
        | inr h ↦ rw h (detected _ v (refl, tt) same.applied (inl same.rest))
        | inl h ↦ rw h (elim (call-cases v) [
          | inl (w, e, same') ↦ rw e (
              detected _ _ (refl, (refl, tt)) (same'.applied ∙ same.applied)
                (inr (ap schema.backfill (same'.rest ∙ same.rest))))
          | inr (x, w, e, same') ↦ rw e (refused _ w (Same-trans s v w same same'))
        ])
      ]

  versions_if-Detected :
      (supported : Bool) (s v : Database D) → Same s v → Detected s (versions_if schema supported v)
  unfolding table_column_names
  versions_if-Detected false s v same = refused _ v same
  versions_if-Detected true s v same =
      reads_rule (Detected s) (table_column_names schema (codes "tasks")) (versions_for schema) v _
        (read-ReadsAs _ (λ w. schema.columns (codes "tasks") w.rest) v
          (λ w same'. ap (schema.columns (codes "tasks")) same'.rest))
        (λ w same'. versions_for-Detected _ s w (Same-trans s v w same same'))
        (λ e w same'. refused e w (Same-trans s v w same same'))

  detect_legacy_satisfied_versions-Detected :
      (s : Database D) → Detected s (detect_legacy_satisfied_versions schema s)
  unfolding detect_legacy_satisfied_versions
  detect_legacy_satisfied_versions-Detected s =
      elim (table_exists-ReadsAs (codes "thread_bindings") s) [
        | inr (y, v, e, sv) ↦ rw e (refused _ v sv)
        | inl (v, e, sv) ↦ rw e (elim (table_exists-ReadsAs (codes "tasks") v) [
          | inr (y, w, e', vw) ↦ rw e' (refused _ w (Same-trans s v w sv vw))
          | inl (w, e', vw) ↦ rw e' (with_active v w (Same-trans s v w sv vw))
        ])
      ]
    where
      with_active :
          (v w : Database D)
          → Same s w
          → Detected s (
              (table_exists schema (codes "active_tasks") >>= λ active. versions_if schema (
                  schema.exists (codes "thread_bindings") s.rest
                  && schema.exists (codes "tasks") v.rest
                  && active))
                w)
      with_active v w sw = elim (table_exists-ReadsAs (codes "active_tasks") w) [
        | inr (y, x, e, wx) ↦ rw e (refused _ x (Same-trans s w x sw wx))
        | inl (x, e, wx) ↦ rw e (versions_if-Detected _ s x (Same-trans s w x sw wx))
      ]

  -- Whatever follows the insertion of a version keeps, the insertion keeps too.
  ignored-keeps :
      (version : ℕ) (v : Database D) (o : Option (List MigrationRow))
      (k : Action (Database D) (Unit {0})) (t : Text)
      → is_legacy_version version ≡ true
      → LegacyRows o
      → LegacyRows v.applied
      → ((w : Database D)
          → LegacyRows w.applied
          → LegacyRows (k w).1.applied × ((k w).1.rest ≡ w.rest))
      → LegacyRows
          (continue_with
            (λ x. k)
            (wrapped t (store_rows v (insert_or_ignore (row_at v version) o)))).1.applied
        × ((continue_with
              (λ x. k)
              (wrapped t (store_rows v (insert_or_ignore (row_at v version) o)))).1.rest
            ≡ v.rest)
  ignored-keeps version v none k t h legacy same more = (same, refl)
  ignored-keeps version v (some rows) k t h legacy same more =
      elim (Bool-cases (has_version version rows)) [
        | inl taken ↦ rw taken (more _ legacy)
        | inr new ↦ rw new (
            more _ (
              All-append (λ row. is_legacy_version row.version ≡ true) rows (row_at v version ∷ [])
                legacy (h, tt)))
      ]

  -- Recording versions keeps the other tables, and adds rows of these versions only.
  record_versions-keeps :
      (versions : List ℕ) (s : Database D)
      → All (λ n. is_legacy_version n ≡ true) versions
      → LegacyRows s.applied
      → LegacyRows (record_versions schema versions s).1.applied
        × ((record_versions schema versions s).1.rest ≡ s.rest)
  unfolding record_versions
  record_versions-keeps [] s h legacy = (legacy, refl)
  record_versions-keeps (version ∷ versions) s (h, hs) legacy = elim (call-cases s) [
    | inr (y, v, e, same) ↦ rw e (subst LegacyRows (sym same.applied) legacy, same.rest)
    | inl (v, e, same) ↦
        let (a, b) =
          ignored-keeps version v v.applied (record_versions schema versions) _ h
            (subst LegacyRows (sym same.applied) legacy)
            (subst LegacyRows (sym same.applied) legacy)
            (λ w ok_rows. record_versions-keeps versions w hs ok_rows) in
        rw e (a, b ∙ same.rest)
  ]

  ensured-LegacyRows : (o : Option (List MigrationRow)) → LegacyRows o → LegacyRows (or_empty o)
  ensured-LegacyRows none h = tt
  ensured-LegacyRows (some rows) h = h

  -- Whatever the driver answers, the bootstrap of a database without the table of migrations adopts.
  pub bootstrap-Adopts :
      (s : Database D) → s.applied ≡ none → Adopts s (bootstrap_legacy_schema_migrations schema s).1
  unfolding bootstrap_legacy_schema_migrations ensure_schema_migrations_table
  bootstrap-Adopts s missing = elim (call-cases s) [
    | inr (y, v, e, same) ↦
        rw e (record {
          rows = subst LegacyRows (sym (same.applied ∙ missing)) tt;
          rest = inl same.rest;
        })
    | inl (v, e, same) ↦ rw e (
        recorded (record v { applied = or_empty v.applied })
          (detect_legacy_satisfied_versions schema (record v { applied = or_empty v.applied }))
          (ensured-LegacyRows v.applied (subst LegacyRows (sym (same.applied ∙ missing)) tt))
          same.rest
          (detect_legacy_satisfied_versions-Detected (record v { applied = or_empty v.applied })))
  ]
    where
      moved :
          (v w x : Database D)
          → v.rest ≡ s.rest
          → x.rest ≡ w.rest
          → (w.rest ≡ v.rest) ⊎ (w.rest ≡ schema.backfill v.rest)
          → (x.rest ≡ s.rest) ⊎ (x.rest ≡ schema.backfill s.rest)
      moved v w x e k (inl h) = inl (k ∙ h ∙ e)
      moved v w x e k (inr h) = inr (k ∙ h ∙ ap schema.backfill e)

      recorded :
          (v : Database D) (r : Result (List ℕ) × Database D)
          → LegacyRows v.applied
          → v.rest ≡ s.rest
          → Detected v r
          → Adopts s (continue_with (record_versions schema) r).1
      recorded v _ legacy left (refused e w same) = record {
        rows = subst LegacyRows (sym same.applied) legacy;
        rest = inl (same.rest ∙ left);
      }
      recorded v _ legacy left (detected versions w all_legacy same rest) =
          let (a, b) =
            record_versions-keeps versions w all_legacy (subst LegacyRows (sym same) legacy) in
          record { rows = a; rest = moved v w (record_versions schema versions w).1 left b rest }
