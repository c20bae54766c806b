-- ===== src/Store/Scheduled/Placed.antt =====
-- A run that has its row in the table, and what changes the row.
use claw.Prelude.{
  ℕ, ◌≡◌, refl, sym, ap, subst, ◌∙◌, inl, inr, Bool, true, false, none, some, List, [], ◌∷◌, ◌++◌,
  arith, first, Bool-cases,
}
use claw.Prelude.Text.{Text, text_eq_iff, text_eq_refl}
use claw.Errors.{ok}
use claw.Types.{Time}
use claw.ScheduledTasks.{ScheduledTaskRun, ScheduledTaskRunStatus}
use claw.Store.{Store, query, exec, clock}
use claw.Store.Tasks.{or_now}
use claw.Store.Scheduled.{has_run_id, clashes}
use claw.Store.Scheduled.Updates.{
  changed_run, change_run, overlaps, store_run, update_scheduled_task_run,
}
use claw.Store.Scheduled.Runs.{
  IsUnique, first-or_none, change_run_same, change_run_other, first-cons_false, append-IsUnique,
  change_run-IsUnique,
}
use claw.Store.Daily.Index.{first-append_none}
use claw.Store.Scheduled.Admission.{IsThrough, driver-through, with_run}

-- What leaves the runs and the tasks alone, and a driver that goes through as one that does.
pub record Keeps (s t : Store) : Type 0 where
  pub runs : t.tables.scheduled_task_runs ≡ s.tables.scheduled_task_runs
  pub tasks : t.tables.scheduled_tasks ≡ s.tables.scheduled_tasks
  pub through : IsThrough s → IsThrough t

-- The driver goes through, the keys are unique, and the run of an id has its row, of a task, a due
-- time and an attempt.
pub record Placed (id task_id : Text) (due : Time) (n : ℕ) (status : ScheduledTaskRunStatus)
    (s : Store) : Type 0 where
  pub through : IsThrough s
  pub unique : IsUnique s.tables.scheduled_task_runs
  pub row : ScheduledTaskRun
  pub found : first (has_run_id id) s.tables.scheduled_task_runs ≡ some row
  pub of_task : row.scheduled_task_id ≡ task_id
  pub due_then : row.scheduled_for ≡ due
  pub attempted : row.attempt ≡ n
  pub is_in : row.status ≡ status

-- The row of a run, with the status of the run.
abbrev pub IsStored : ScheduledTaskRun → Store → Type 0
IsStored run =
    Placed run.scheduled_run_id run.scheduled_task_id run.scheduled_for run.attempt run.status

first-holds :
    (p q : ScheduledTaskRun → Bool) (rows : List ScheduledTaskRun) (row : ScheduledTaskRun)
    → first p rows ≡ none
    → first q rows ≡ some row
    → p row ≡ false
unfolding first
first-holds p q [] row h f = cc
first-holds p q (r ∷ rows) row h f = ground (arith, first-holds p q rows row)

first-test :
    (q : ScheduledTaskRun → Bool) (rows : List ScheduledTaskRun) (row : ScheduledTaskRun)
    → first q rows ≡ some row
    → q row ≡ true
unfolding first
first-test q [] row f = cc
first-test q (r ∷ rows) row f = ground (arith, first-test q rows row)

module _ (changed row : ScheduledTaskRun)
    (same_id : changed.scheduled_run_id ≡ row.scheduled_run_id)
    (same_task : changed.scheduled_task_id ≡ row.scheduled_task_id)
    (same_due : changed.scheduled_for ≡ row.scheduled_for)
    (same_attempt : changed.attempt ≡ row.attempt) where
  overlaps-of_clashes :
      (rows : List ScheduledTaskRun)
      → first (clashes row) rows ≡ none
      → first (overlaps changed) rows ≡ none
  unfolding first
  overlaps-of_clashes [] h = refl
  overlaps-of_clashes (r ∷ rows) h = ground (arith, overlaps-of_clashes rows)

  overlaps-other : (r : ScheduledTaskRun) → clashes r row ≡ false → overlaps changed r ≡ false
  overlaps-other r h = ground (
    arith,
    text_eq_iff r.scheduled_task_id row.scheduled_task_id,
    text_eq_iff row.scheduled_task_id r.scheduled_task_id,
  )

  -- No other row has what a row has.
  overlaps-none :
      (rows : List ScheduledTaskRun)
      → IsUnique rows
      → first (has_run_id row.scheduled_run_id) rows ≡ some row
      → first (overlaps changed) rows ≡ none
  unfolding first
  overlaps-none [] unique found = refl
  overlaps-none (r ∷ rows) (alone, unique) found =
      elim (Bool-cases (has_run_id row.scheduled_run_id r)) [
        | inl h ↦
            let here : r ≡ row = ground arith in
            ground (
              arith,
              text_eq_iff r.scheduled_run_id row.scheduled_run_id,
              overlaps-of_clashes rows (subst (λ x. first (clashes x) rows ≡ none) here alone),
            )
        | inr h ↦
            let there : first (has_run_id row.scheduled_run_id) rows ≡ some row = ground arith in
            let off =
              overlaps-other r
                (first-holds (clashes r) (has_run_id row.scheduled_run_id) rows row alone there) in
            ground (arith, off, overlaps-none rows unique there)
      ]

pub some-inj {ℓ} : {A : Type ℓ} {x y : A} → some x ≡ some y → x ≡ y
some-inj h = cc

pub first-cons_true {ℓ} :
    {A : Type ℓ} (p : A → Bool) (x : A) (xs : List A) → p x ≡ true → first p (x ∷ xs) ≡ some x
unfolding first
first-cons_true p x xs h = rw h refl

first-append_some :
    (p : ScheduledTaskRun → Bool) (rows : List ScheduledTaskRun) (run row : ScheduledTaskRun)
    → first p rows ≡ some row
    → first p (rows ++ run ∷ []) ≡ some row
unfolding first
first-append_some p [] run row h = cc
first-append_some p (r ∷ rows) run row h = ground (arith, first-append_some p rows run row)

-- The row of a run that changes.
change_run-found :
    (run row : ScheduledTaskRun) (rows : List ScheduledTaskRun)
    → first (has_run_id run.scheduled_run_id) rows ≡ some row
    → first (has_run_id run.scheduled_run_id) (change_run run rows) ≡ some (changed_run run row)
change_run-found run row [] h = unfold first in cc
change_run-found run row (r ∷ rows) h = elim (Bool-cases (has_run_id run.scheduled_run_id r)) [
  | inl e ↦
      let here = first-cons_true (has_run_id run.scheduled_run_id) r rows e in
      let same : r ≡ row = some-inj (sym here ∙ h) in
      ap (first (has_run_id run.scheduled_run_id)) (change_run_same run r rows e)
      ∙ first-cons_true (has_run_id run.scheduled_run_id) (changed_run run r) _
          (text_eq_refl run.scheduled_run_id)
      ∙ ap (λ x. some (changed_run run x)) same
  | inr e ↦
      let there = sym (first-cons_false (has_run_id run.scheduled_run_id) r rows e) ∙ h in
      ap (first (has_run_id run.scheduled_run_id)) (change_run_other run r rows e)
      ∙ first-cons_false (has_run_id run.scheduled_run_id) r _ e
      ∙ change_run-found run row rows there
]

abbrev pub with_runs : List ScheduledTaskRun → Store → Store
with_runs rows s = record s { tables = record s.tables { scheduled_task_runs = rows } }

store_run-free :
    (run row : ScheduledTaskRun) (s : Store)
    → first (overlaps (changed_run run row)) s.tables.scheduled_task_runs ≡ none
    → store_run run (some row) s
      ≡ (ok tt, with_runs (change_run run s.tables.scheduled_task_runs) s)
unfolding store_run exec
store_run-free run row s h = rw (h, store_run) refl

-- Writing a run that has its row gives the row the status of the run.
pub update-IsStored :
    (run : ScheduledTaskRun) (before : ScheduledTaskRunStatus) (s : Store)
    → Placed run.scheduled_run_id run.scheduled_task_id run.scheduled_for run.attempt before s
    → (t : Store) × (update_scheduled_task_run run s ≡ (ok tt, t))
      × IsStored run t
      × (t.tables.scheduled_tasks ≡ s.tables.scheduled_tasks)
unfolding update_scheduled_task_run clock query
update-IsStored run before s p =
    let run' = record run { updated_at = or_now s.now run.updated_at } in
    let changed = changed_run run' p.row in
    let rows = s.tables.scheduled_task_runs in
    let same_id : p.row.scheduled_run_id ≡ run.scheduled_run_id =
      (text_eq_iff p.row.scheduled_run_id run.scheduled_run_id).0
        (first-test (has_run_id run.scheduled_run_id) rows p.row p.found) in
    let free =
      overlaps-none changed p.row (sym same_id) refl (sym p.due_then) (sym p.attempted) rows
        p.unique (subst (λ id. first (has_run_id id) rows ≡ some p.row) (sym same_id) p.found) in
    (
      with_runs (change_run run' rows) s,
      rw (driver-through s p.through) (rw p.found (store_run-free run' p.row s free)),
      record {
        through = p.through;
        unique = change_run-IsUnique run' p.row rows p.unique p.found free;
        row = changed;
        found = change_run-found run' p.row rows p.found;
        of_task = p.of_task;
        due_then = refl;
        attempted = refl;
        is_in = refl;
      },
      refl,
    )

pub keep-Placed :
    {id task_id : Text} {due : Time} {n : ℕ} {status : ScheduledTaskRunStatus} (s t : Store)
    → Keeps s t
    → Placed id task_id due n status s
    → Placed id task_id due n status t
keep-Placed s t k p = record {
  through = k.through p.through;
  unique = rw k.runs p.unique;
  row = p.row;
  found = rw k.runs p.found;
  of_task = p.of_task;
  due_then = p.due_then;
  attempted = p.attempted;
  is_in = p.is_in;
}

-- A new row leaves the rows before it.
pub with_run-Placed :
    {id task_id : Text} {due : Time} {n : ℕ} {status : ScheduledTaskRunStatus}
    (run : ScheduledTaskRun) (s : Store)
    → Placed id task_id due n status s
    → first (clashes run) s.tables.scheduled_task_runs ≡ none
    → Placed id task_id due n status (record s { tables = with_run run s.tables })
with_run-Placed run s p free = record {
  through = p.through;
  unique = append-IsUnique run s.tables.scheduled_task_runs p.unique free;
  row = p.row;
  found = first-append_some _ s.tables.scheduled_task_runs run p.row p.found;
  of_task = p.of_task;
  due_then = p.due_then;
  attempted = p.attempted;
  is_in = p.is_in;
}

-- A new row is the row of its run.
pub with_run-IsStored :
    (run : ScheduledTaskRun) (s : Store)
    → IsThrough s
    → IsUnique s.tables.scheduled_task_runs
    → first (clashes run) s.tables.scheduled_task_runs ≡ none
    → IsStored run (record s { tables = with_run run s.tables })
with_run-IsStored run s through unique free = record {
  through = through;
  unique = append-IsUnique run s.tables.scheduled_task_runs unique free;
  row = run;
  found =
      first-append_none (has_run_id run.scheduled_run_id) s.tables.scheduled_task_runs run
        (first-or_none run s.tables.scheduled_task_runs free)
      ∙ rw (text_eq_refl run.scheduled_run_id) refl;
  of_task = refl;
  due_then = refl;
  attempted = refl;
  is_in = refl;
}
