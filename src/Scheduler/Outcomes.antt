-- ===== src/Scheduler/Outcomes.antt =====
-- How the execution of a run ends.
use mathlib.Core.List.{Mem}
use claw.Prelude.{ℕ, ◌+◌, ◌≤◌, ◌<◌, ◌≡◌, refl, sym, ◌∙◌, inl, inr, Option, none, some, arith, first}
use claw.Prelude.Text.{Text}
use claw.Errors.{Result}
use claw.Types.{Time}
use claw.TaskBranch.{Unicode}
use claw.ScheduledTasks.{
  ScheduledTask, ScheduledTaskRun, ScheduledTaskRunStatus, pending, succeeded, failed, canceled,
}
use claw.Store.{Store}
use claw.Store.Scheduled.{has_task_id, clashes, admitted_form}
use claw.Store.Scheduled.Clashes.{clash-cases}
use claw.Store.Scheduled.Deliveries.{Keeps-trans}
use claw.Store.Scheduled.Updates.{update_scheduled_task_run}
use claw.Store.Scheduled.Admission.{LowersErrors, Admitted, taken, orphan, admitted, admit-Admitted}
use claw.Store.Scheduled.Placed.{
  Placed, IsStored, Keeps, update-IsStored, keep-Placed, with_run-Placed, with_run-IsStored,
}
use claw.Scheduler.{Dependencies}
use claw.Scheduler.Delivery.{logged}
use claw.Scheduler.Execution.{Ended, retry_of, retried, retry_run}
use claw.Scheduler.Retries.{on_sqlite}
use claw.Scheduler.Laws.{IsApart}

module _ (new_id : Store → Text) (task_id : Text) (due : Time) (n : ℕ) where
  -- Why a failed run has no retry: it was the second attempt, the table has the next attempt or the id
  -- that was generated for it, or the task is gone.
  pub data NoRetry (t : Store) : Type 0 where
    last_attempt : 2 ≤ n → NoRetry t
    taken_retry :
        (row : ScheduledTaskRun)
        → Mem row t.tables.scheduled_task_runs
        → row.scheduled_task_id ≡ task_id
        → row.scheduled_for ≡ due
        → row.attempt ≡ n + 1
        → NoRetry t
    taken_id :
        (row : ScheduledTaskRun) (v : Store)
        → Keeps v t
        → Mem row t.tables.scheduled_task_runs
        → row.scheduled_run_id ≡ new_id v
        → NoRetry t
    no_task : first (has_task_id task_id) t.tables.scheduled_tasks ≡ none → NoRetry t

  pub data Ending (r : Ended × Store) : Type 0 where
    success : r.0.0.status ≡ succeeded → r.0.1 ≡ none → Ending r
    cancellation : r.0.0.status ≡ canceled → r.0.1 ≡ none → Ending r
    failure : r.0.0.status ≡ failed → r.0.1 ≡ none → NoRetry r.1 → Ending r
    retrial :
        (next : ScheduledTaskRun)
        → r.0.0.status ≡ failed
        → r.0.1 ≡ some next
        → n < 2
        → next.attempt ≡ n + 1
        → next.scheduled_task_id ≡ task_id
        → next.scheduled_for ≡ due
        → next.status ≡ pending
        → IsStored next r.1
        → Ending r

  -- The row of the run has the status that comes back, and the run has ended.
  pub record Outcome (id : Text) (r : Ended × Store) : Type 0 where
    pub same_id : r.0.0.scheduled_run_id ≡ id
    pub stored : Placed id task_id due n r.0.0.status r.1
    pub ending : Ending r

  keep-NoRetry : (s t : Store) → Keeps s t → NoRetry s → NoRetry t
  keep-NoRetry s t k (last_attempt h) = last_attempt h
  keep-NoRetry s t k (taken_retry row m a b c) = taken_retry row (rw k.runs m) a b c
  keep-NoRetry s t k (taken_id row v l m e) = taken_id row v (Keeps-trans v s t l k) (rw k.runs m) e
  keep-NoRetry s t k (no_task h) = no_task (rw k.tasks h)

  keep-Ending : (ended : Ended) (s t : Store) → Keeps s t → Ending (ended, s) → Ending (ended, t)
  keep-Ending ended s t k (success a b) = success a b
  keep-Ending ended s t k (cancellation a b) = cancellation a b
  keep-Ending ended s t k (failure a b c) = failure a b (keep-NoRetry s t k c)
  keep-Ending ended s t k (retrial next a b c d e f g h) =
      retrial next a b c d e f g (keep-Placed s t k h)

  pub keep-Outcome :
      (id : Text) (ended : Ended) (s t : Store)
      → Keeps s t
      → Outcome id (ended, s)
      → Outcome id (ended, t)
  keep-Outcome id ended s t k o = record {
    same_id = o.same_id;
    stored = keep-Placed s t k o.stored;
    ending = keep-Ending ended s t k o.ending;
  }

-- How a run ends that is executed.
abbrev pub Ends : Dependencies Store → ScheduledTaskRun → Ended × Store → Type 0
Ends base run =
    Outcome (λ v. (base.new_run_id v).0) run.scheduled_task_id run.scheduled_for run.attempt
      run.scheduled_run_id

-- The row of a run, with whatever status.
abbrev pub HasRow : ScheduledTaskRun → ScheduledTaskRunStatus → Store → Type 0
HasRow run = Placed run.scheduled_run_id run.scheduled_task_id run.scheduled_for run.attempt

pub logged-IsStored :
    (run : ScheduledTaskRun) (before : ScheduledTaskRunStatus) (s : Store)
    → HasRow run before s
    → IsStored run (logged (update_scheduled_task_run run s))
logged-IsStored run before s p =
    let (t, e, stored, same) = update-IsStored run before s p in rw e stored

module _ (u : Unicode) (base : Dependencies Store) (task : ScheduledTask) (laws : LowersErrors u)
    (apart : IsApart base) where
  abbrev d : Dependencies Store
  d = on_sqlite u base

  -- What stands in the way of a retry.
  clash-NoRetry :
      (run retry : ScheduledTaskRun) (row : ScheduledTaskRun) (v s : Store)
      → retry.scheduled_task_id ≡ run.scheduled_task_id
      → retry.scheduled_for ≡ run.scheduled_for
      → retry.attempt ≡ run.attempt + 1
      → retry.scheduled_run_id ≡ (base.new_run_id v).0
      → Keeps v s
      → first (clashes retry) s.tables.scheduled_task_runs ≡ some row
      → NoRetry (λ w. (base.new_run_id w).0) run.scheduled_task_id run.scheduled_for run.attempt s
  clash-NoRetry run retry row v s a b c i k e =
      let (m, why) = clash-cases retry row s.tables.scheduled_task_runs e in
      elim why [
        | inl same ↦ taken_id row v k m (same ∙ i)
        | inr o ↦ taken_retry row m (o.of_task ∙ a) (o.due_then ∙ b) (o.attempted ∙ c)
      ]

  retried-Outcome :
      (run retry : ScheduledTaskRun) (v s : Store) (r : Result (Option ScheduledTaskRun) × Store)
      → run.status ≡ failed
      → run.attempt < 2
      → retry.scheduled_task_id ≡ run.scheduled_task_id
      → retry.scheduled_for ≡ run.scheduled_for
      → retry.attempt ≡ run.attempt + 1
      → retry.status ≡ pending
      → retry.scheduled_run_id ≡ (base.new_run_id v).0
      → Keeps v s
      → IsStored run s
      → Admitted retry s r
      → Ends base run (retried run r)
  retried-Outcome run retry v s r f small a b c p i k stored (taken row e h) = rw h (record {
    same_id = refl;
    stored = stored;
    ending = failure f refl (clash-NoRetry run retry row v s a b c i k e);
  })
  retried-Outcome run retry v s r f small a b c p i k stored (orphan x e n h) =
      rw h (record {
        same_id = refl;
        stored = stored;
        ending = failure f refl (no_task (rw (sym a) n));
      })
  retried-Outcome run retry v s r f small a b c p i k stored (admitted task e n h) = rw h (record {
    same_id = refl;
    stored = with_run-Placed retry s stored e;
    ending =
        retrial retry f refl small c a b p
          (with_run-IsStored retry s stored.through stored.unique e);
  })

  -- A failed first attempt is followed by a retry, or by what stands in its way.
  pub retry_run-Outcome :
      (run : ScheduledTaskRun) (s : Store)
      → run.status ≡ failed
      → run.attempt < 2
      → IsStored run s
      → Ends base run (retry_run d run s)
  unfolding admitted_form
  retry_run-Outcome run s f small stored =
      let (id, t) = base.new_run_id s in
      let k = apart.names_run s in
      let retry = admitted_form t.now (retry_of id run) in
      retried-Outcome run retry s t _ f small refl refl (ground arith) refl refl k
        (keep-Placed s t k stored)
        (admit-Admitted u laws (retry_of id run) t (k.through stored.through))
