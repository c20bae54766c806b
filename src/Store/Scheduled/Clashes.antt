-- ===== src/Store/Scheduled/Clashes.antt =====
-- Why a run cannot be inserted: a row has its id, or its task, due time and attempt.
use mathlib.Core.List.{Mem, mem-cons_self, mem-cons_of_mem}
use claw.Prelude.{◌≡◌, ◌⊎◌, inl, inr, Bool, true, some, List, [], ◌∷◌, arith, first, Bool-cases}
use claw.Prelude.Text.{text_eq_iff}
use claw.ScheduledTasks.{ScheduledTaskRun}
use claw.Store.Scheduled.{has_run_id, clashes}

-- The row of the run's task, due time and attempt.
pub record IsOccurrence (run row : ScheduledTaskRun) : Type 0 where
  pub of_task : row.scheduled_task_id ≡ run.scheduled_task_id
  pub due_then : row.scheduled_for ≡ run.scheduled_for
  pub attempted : row.attempt ≡ run.attempt

pub first-Mem :
    {A : Type 0} (p : A → Bool) (xs : List A) (x : A)
    → first p xs ≡ some x
    → Mem x xs × (p x ≡ true)
unfolding first
first-Mem p [] x h = absurd (ground arith)
first-Mem p (y ∷ ys) x h = elim (Bool-cases (p y)) [
  | inl e ↦ let same : y ≡ x = ground arith in rw (← same) (mem-cons_self, e)
  | inr e ↦ let (m, q) = first-Mem p ys x (ground arith) in (mem-cons_of_mem y m, q)
]

pub clash-cases :
    (run row : ScheduledTaskRun) (rows : List ScheduledTaskRun)
    → first (clashes run) rows ≡ some row
    → Mem row rows × ((row.scheduled_run_id ≡ run.scheduled_run_id) ⊎ IsOccurrence run row)
clash-cases run row rows h =
    let (m, c) = first-Mem (clashes run) rows row h in
    (
      m,
      elim (Bool-cases (has_run_id run.scheduled_run_id row)) [
        | inl e ↦ inl (ground (arith, text_eq_iff row.scheduled_run_id run.scheduled_run_id))
        | inr e ↦ inr (record {
          of_task = ground (arith, e, c, text_eq_iff row.scheduled_task_id run.scheduled_task_id);
          due_then = ground (arith, e, c);
          attempted = ground (arith, e, c);
        })
      ],
    )
