-- ===== src/Store/Scheduled/Admission.antt =====
-- What admitting a run and changing one do while the driver goes through.
use claw.Prelude.{
  ◌≡◌, refl, inl, inr, true, false, Option, none, some, [], ◌∷◌, ◌++◌, map, first, Option-cases,
}
use claw.Prelude.Text.{codes, is_empty, cut_prefix, contains}
use claw.Errors.{Error, message, Result, ok, err, error_text}
use claw.TaskBranch.{Unicode}
use claw.ScheduledTasks.{ScheduledTask, ScheduledTaskRun}
use claw.Store.{Tables, Store, driver, exec, clock}
use claw.Store.Scheduled.{
  has_task_id, clashes, admitted_form, insert_run, is_unique_constraint_error, admitted_as,
  admit_scheduled_task_run,
}
use claw.Store.Scheduled.Runs.{IsUnique, append-IsUnique}

-- What Go's tables make of the texts of the two constraints.
pub record LowersErrors (u : Unicode) : Type 0 where
  pub unique :
      map u.to_lower (codes "UNIQUE constraint failed: scheduled_task_runs")
      ≡ codes "unique constraint failed: scheduled_task_runs"
  pub foreign :
      map u.to_lower (codes "FOREIGN KEY constraint failed") ≡ codes "foreign key constraint failed"

abbrev pub IsThrough : Store → Type 0
IsThrough s = s.answers ≡ []

pub driver-through : (s : Store) → IsThrough s → driver s ≡ (ok tt, s)
unfolding driver
driver-through s h = rw h refl

abbrev pub with_run : ScheduledTaskRun → Tables → Tables
with_run run t = record t { scheduled_task_runs = t.scheduled_task_runs ++ run ∷ [] }

-- How the admission of a run ends.
pub data Admitted (run : ScheduledTaskRun) (s : Store)
    (r : Result (Option ScheduledTaskRun) × Store) : Type 0 where
  taken :
      (row : ScheduledTaskRun)
      → first (clashes run) s.tables.scheduled_task_runs ≡ some row
      → r ≡ (ok none, s)
      → Admitted run s r
  orphan :
      (e : Error)
      → first (clashes run) s.tables.scheduled_task_runs ≡ none
      → first (has_task_id run.scheduled_task_id) s.tables.scheduled_tasks ≡ none
      → r ≡ (err e, s)
      → Admitted run s r
  admitted :
      (task : ScheduledTask)
      → first (clashes run) s.tables.scheduled_task_runs ≡ none
      → first (has_task_id run.scheduled_task_id) s.tables.scheduled_tasks ≡ some task
      → r ≡ (ok (some run), record s { tables = with_run run s.tables })
      → Admitted run s r

module _ (u : Unicode) (laws : LowersErrors u) where
  unique_error :
      is_unique_constraint_error u (message (codes "UNIQUE constraint failed: scheduled_task_runs"))
      ≡ true
  unfolding is_unique_constraint_error error_text contains cut_prefix codes is_empty
  unique_error = rw laws.unique refl

  foreign_error :
      is_unique_constraint_error u (message (codes "FOREIGN KEY constraint failed")) ≡ false
  unfolding is_unique_constraint_error error_text contains cut_prefix codes is_empty
  foreign_error = rw laws.foreign refl

  abbrev inserted :
      ScheduledTaskRun → Result (Unit {0}) × Store → Result (Option ScheduledTaskRun) × Store
  inserted run (r, s) = admitted_as u run r s

  inserted-Admitted :
      (run : ScheduledTaskRun) (s : Store) → Admitted run s (inserted run (insert_run run s))
  unfolding insert_run exec
  inserted-Admitted run s = elim (Option-cases (first (clashes run) s.tables.scheduled_task_runs)) [
    | inr (row, e) ↦ rw (e, insert_run) (rw unique_error (taken row e refl))
    | inl e ↦
        elim (Option-cases (first (has_task_id run.scheduled_task_id) s.tables.scheduled_tasks)) [
          | inl n ↦ rw (e, insert_run) (rw n (rw foreign_error (orphan _ e n refl)))
          | inr (task, n) ↦ rw (e, insert_run) (rw n (admitted task e n refl))
        ]
  ]

  pub admit-Admitted :
      (run : ScheduledTaskRun) (s : Store)
      → IsThrough s
      → Admitted (admitted_form s.now run) s (admit_scheduled_task_run u run s)
  unfolding admit_scheduled_task_run clock
  admit-Admitted run s h = rw (driver-through s h) (inserted-Admitted (admitted_form s.now run) s)

Admitted-IsUnique :
    (run : ScheduledTaskRun) (s : Store) (r : Result (Option ScheduledTaskRun) × Store)
    → IsUnique s.tables.scheduled_task_runs
    → Admitted run s r
    → IsUnique r.1.tables.scheduled_task_runs
Admitted-IsUnique run s r unique (taken row e h) = rw h unique
Admitted-IsUnique run s r unique (orphan x c e h) = rw h unique
Admitted-IsUnique run s r unique (admitted task e n h) =
    rw h (append-IsUnique run s.tables.scheduled_task_runs unique e)

-- Let Go's tables lower the texts of the two constraints, let the driver go through, and let no two
-- runs of the table have one id, or one task, due time and attempt.
-- Admitting a run, with its defaults, tells that it is not admitted when a row clashes with it, or
-- fails when its task is not there, and changes nothing; else the run is the result and the last row
-- of the table. The keys stay unique.
pub admit_scheduled_task_run_lem :
    (u : Unicode)
    → LowersErrors u
    → (run : ScheduledTaskRun) (s : Store) → IsThrough s
    → IsUnique s.tables.scheduled_task_runs
    → Admitted (admitted_form s.now run) s (admit_scheduled_task_run u run s)
      × IsUnique (admit_scheduled_task_run u run s).1.tables.scheduled_task_runs
admit_scheduled_task_run_lem u laws run s h unique =
    let a = admit-Admitted u laws run s h in
    (a, Admitted-IsUnique (admitted_form s.now run) s _ unique a)
