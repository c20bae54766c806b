-- ===== src/Scheduler/Retries.antt =====
-- How often a due run is attempted, whatever other calls come between.
use claw.Prelude.{
  ℕ, suc, ◌+◌, ◌≤◌, ◌<◌, ◌≡◌, refl, inl, inr, Bool, true, false, Option, none, some, arith, ◌&&◌,
  ◌||◌, ltb, Bool-cases,
}
use claw.Prelude.Text.{Text}
use claw.Errors.{Error, Result, ok, err, ◌>>◌}
use claw.Types.{Mode, journal, thread}
use claw.TaskBranch.{Unicode}
use claw.ScheduledTasks.{
  ScheduledTask, ScheduledTaskRun, ScheduledTaskRunStatus, is_failed, canceled, failed,
}
use claw.Store.{Store, driver, clock}
use claw.Store.Scheduled.{admitted_form, admitted_as, admit_scheduled_task_run, insert_run}
use claw.Store.Scheduled.Updates.{scheduled_store, update_scheduled_task_run}
use claw.Scheduler.{Dependencies, is_cancellation_error}
use claw.Scheduler.Delivery.{logged}
use claw.Scheduler.Execution.{
  Ended, started_form, failed_form, retry_of, retried, retry_run, fail_run, fail_by, after_cleanup,
  end_turn, execute_in, in_worktree, execute_mode, execute_started, execute_run,
}

-- The service on the SQLite store.
abbrev pub on_sqlite : Unicode → Dependencies Store → Dependencies Store
on_sqlite u base = record base { store = scheduled_store u }

-- A retry is the next attempt, and the last.
abbrev pub IsLastAttempt : ℕ → Ended × Store → Type 0
IsLastAttempt n r = (next : ScheduledTaskRun) → r.0.1 ≡ some next → (n < 2) × (next.attempt ≡ n + 1)

module _ (u : Unicode) (base : Dependencies Store) (task : ScheduledTask) where
  admitted_as-attempt :
      (run next : ScheduledTaskRun) (r : Result (Unit {0})) (s : Store)
      → (admitted_as u run r s).0 ≡ ok (some next)
      → next ≡ run
  admitted_as-attempt run next (ok x) s h = ground arith
  admitted_as-attempt run next (err e) s h = ground arith

  admit-attempt :
      (run next : ScheduledTaskRun) (n : ℕ) (s : Store)
      → run.attempt ≡ n + 1
      → (admit_scheduled_task_run u run s).0 ≡ ok (some next)
      → next.attempt ≡ n + 1
  unfolding admit_scheduled_task_run clock admitted_form
  admit-attempt run next n s e h =
      let r = (driver >> insert_run (admitted_form s.now run)) s in
      let same = admitted_as-attempt (admitted_form s.now run) next r.0 r.1 h in
      rw same (ground arith)

  retried-last :
      (run : ScheduledTaskRun) (n : ℕ) (r : Result (Option ScheduledTaskRun) × Store)
      → n < 2
      → ((next : ScheduledTaskRun) → r.0 ≡ ok (some next) → next.attempt ≡ n + 1)
      → IsLastAttempt n (retried run r)
  retried-last run n (ok none, w) small h next e = cc
  retried-last run n (ok (some x), w) small h next e = (small, ground (arith, h next))
  retried-last run n (err x, w) small h next e = cc

  retry_run-last :
      (run : ScheduledTaskRun) (s : Store)
      → run.attempt < 2
      → IsLastAttempt run.attempt (retry_run (on_sqlite u base) run s)
  retry_run-last run s small =
      let (id, t) = base.new_run_id s in
      retried-last run run.attempt (admit_scheduled_task_run u (retry_of id run) t) small
        (λ next h. admit-attempt (retry_of id run) next run.attempt t refl h)

  fail_run-last :
      (run : ScheduledTaskRun) (status : ScheduledTaskRunStatus) (c m : Text) (may : Bool)
      (s : Store)
      → IsLastAttempt run.attempt (fail_run (on_sqlite u base) run status c m may s)
  unfolding fail_run
  fail_run-last run status c m may s =
      let (at, s1) = base.now s in
      let run' = failed_form at status c m run in
      elim (Bool-cases (may && is_failed status && ltb run.attempt 2)) [
        | inl e ↦
            rw e (retry_run-last run' (logged (update_scheduled_task_run run' s1)) (ground arith))
        | inr e ↦ rw e (λ next h. cc)
      ]

  fail_by-last :
      (run : ScheduledTaskRun) (c f : Text) (e : Error) (s : Store)
      → IsLastAttempt run.attempt (fail_by (on_sqlite u base) run c f e s)
  fail_by-last run c f e s = elim (Bool-cases (is_cancellation_error e || base.is_done s)) [
    | inl h ↦ rw h (fail_run-last run canceled c _ false s)
    | inr h ↦ rw h (fail_run-last run failed f _ true s)
  ]

  after_cleanup-last :
      (n : ℕ) (run : ScheduledTaskRun) (r : Result (Unit {0}) × Store)
      → IsLastAttempt n (after_cleanup (on_sqlite u base) run r)
  after_cleanup-last n run (ok x, s) next h = cc
  after_cleanup-last n run (err e, s) next h = cc

  end_turn-last :
      (run : ScheduledTaskRun) (cleanup : Option ℕ) (failure : Option Error) (s : Store)
      → IsLastAttempt run.attempt (end_turn (on_sqlite u base) task run cleanup failure s)
  end_turn-last run cleanup none s = after_cleanup-last run.attempt _ _
  end_turn-last run cleanup (some e) s = fail_by-last run _ _ e s

  execute_in-last :
      (run : ScheduledTaskRun) (cleanup : Option ℕ) (workdir : Text) (s : Store)
      → IsLastAttempt run.attempt (execute_in (on_sqlite u base) task run cleanup workdir s)
  execute_in-last run cleanup workdir s = end_turn-last _ cleanup _ _

  execute_mode-last :
      (mode : Mode) (run : ScheduledTaskRun) (s : Store)
      → IsLastAttempt run.attempt (execute_mode (on_sqlite u base) mode task run s)
  execute_mode-last journal run s = execute_in-last _ none base.workdir s
  execute_mode-last thread run s =
      by_worktree (base.prepare_temporary_worktree run.scheduled_run_id s)
    where
      by_worktree :
          (r : Result (Text × ℕ) × Store)
          → IsLastAttempt run.attempt (in_worktree (on_sqlite u base) task run r)
      by_worktree (err e, t) = fail_by-last run _ _ e t
      by_worktree (ok (path, cleanup), t) = execute_in-last _ (some cleanup) path t

  execute_run-last :
      (run : ScheduledTaskRun) (s : Store)
      → IsLastAttempt run.attempt (execute_run (on_sqlite u base) task run s)
  unfolding execute_run
  execute_run-last run s =
      by_start (started_form (base.now s).0 run) (update_scheduled_task_run _ _)
    where
      by_start :
          (run' : ScheduledTaskRun) (r : Result (Unit {0}) × Store)
          → IsLastAttempt run'.attempt (execute_started (on_sqlite u base) task run' r)
      by_start run' (err e, t) = λ next h. cc
      by_start run' (ok x, t) = execute_mode-last base.mode _ t

  -- A run with its retries, each executed some time after the run before it has started it.
  pub data Attempts : ScheduledTaskRun → ℕ → Type 0 where
    last : {run : ScheduledTaskRun} → Attempts run 1
    retry :
        {run : ScheduledTaskRun} {k : ℕ} (s : Store) (next : ScheduledTaskRun)
        → (execute_run (on_sqlite u base) task run s).0.1 ≡ some next
        → Attempts next k
        → Attempts run (suc k)

  -- Whatever the other calls and the driver do, and whatever comes between the attempts: a run that
  -- is admitted as the first attempt is attempted at most twice.
  pub Attempts-le_two : (run : ScheduledTaskRun) (k : ℕ) → Attempts run k → run.attempt ≡ 1 → k ≤ 2
  Attempts-le_two run k last e = omega arith
  Attempts-le_two run k (retry s next h last) e = omega arith
  Attempts-le_two run k (retry s next h (retry t third g rest)) e =
      let a = execute_run-last run s next h in
      absurd (ground (arith, execute_run-last next t third g))
