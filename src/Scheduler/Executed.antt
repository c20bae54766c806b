-- ===== src/Scheduler/Executed.antt =====
-- The execution of a run, from its start to its end.
use claw.Prelude.{
  ℕ, ◌≡◌, refl, sym, ap, subst, inl, inr, true, false, Option, none, some, [], arith, ◌||◌, ltb,
  Bool-cases,
}
use claw.Prelude.Text.{Text}
use claw.Errors.{Error, Result, ok, err}
use claw.Types.{Mode, journal, thread}
use claw.TaskBranch.{Unicode}
use claw.ScheduledTasks.{
  ScheduledTask, ScheduledTaskRun, ScheduledTaskRunStatus, running, succeeded, failed, canceled,
}
use claw.Store.{Store}
use claw.Store.Scheduled.Updates.{update_scheduled_task_run}
use claw.Store.Scheduled.Admission.{LowersErrors}
use claw.Store.Scheduled.Placed.{IsStored, update-IsStored, keep-Placed}
use claw.Scheduler.{Dependencies, is_cancellation_error}
use claw.Scheduler.Delivery.{logged, deliver_run_result}
use claw.Scheduler.Execution.{
  Ended, started_form, failed_form, finished_form, cleanup_failed, fail_run, fail_by, cleaned,
  after_failure, after_cleanup, succeed_run, end_turn, execute_in, in_worktree, execute_mode,
  execute_run, turn_input,
}
use claw.Scheduler.Retries.{on_sqlite}
use claw.Scheduler.Laws.{IsApart, cleaned-Keeps, deliver-Keeps}
use claw.Scheduler.Causes.{Caused, started_run, started_store, execute_mode-Caused}
use claw.Scheduler.Outcomes.{
  HasRow, Ends, last_attempt, success, cancellation, failure, logged-IsStored, keep-Outcome,
  retry_run-Outcome,
}

module _ (u : Unicode) (base : Dependencies Store) (task : ScheduledTask) (laws : LowersErrors u)
    (apart : IsApart base) where
  abbrev d : Dependencies Store
  d = on_sqlite u base

  canceled-Outcome :
      (run : ScheduledTaskRun) (before : ScheduledTaskRunStatus) (c m : Text) (s : Store)
      → HasRow run before s
      → Ends base run (fail_run d run canceled c m false s)
  unfolding fail_run
  canceled-Outcome run before c m s p =
      let (at, t) = base.now s in
      record {
        same_id = refl;
        stored =
            logged-IsStored (failed_form at canceled c m run) before t
              (keep-Placed s t (apart.reads s) p);
        ending = cancellation refl refl;
      }

  failed-Outcome :
      (run : ScheduledTaskRun) (before : ScheduledTaskRunStatus) (c m : Text) (s : Store)
      → HasRow run before s
      → Ends base run (fail_run d run failed c m true s)
  unfolding fail_run
  failed-Outcome run before c m s p =
      let (at, t) = base.now s in
      let run' = failed_form at failed c m run in
      let stored = logged-IsStored run' before t (keep-Placed s t (apart.reads s) p) in
      elim (Bool-cases (ltb run.attempt 2)) [
        | inl e ↦ rw e (retry_run-Outcome u base task laws apart run' _ refl (ground arith) stored)
        | inr e ↦ rw e (record {
          same_id = refl;
          stored = stored;
          ending = failure refl refl (last_attempt (ground arith));
        })
      ]

  fail_by-Ends :
      (run : ScheduledTaskRun) (before : ScheduledTaskRunStatus) (c f : Text) (e : Error)
      (s : Store)
      → HasRow run before s
      → Ends base run (fail_by d run c f e s)
  fail_by-Ends run before c f e s p =
      elim (Bool-cases (is_cancellation_error e || base.is_done s)) [
        | inl h ↦ rw h (canceled-Outcome run before c _ s p)
        | inr h ↦ rw h (failed-Outcome run before f _ s p)
      ]

  after_failure-Ends :
      (run : ScheduledTaskRun) (cleanup : Option ℕ) (r : Ended × Store)
      → Ends base run r
      → Ends base run (after_failure d cleanup r)
  after_failure-Ends run cleanup (ended, s) o =
      keep-Outcome _ _ _ _ _ ended s _ (cleaned-Keeps u base apart cleanup s) o

  after_cleanup-Ends :
      (run : ScheduledTaskRun) (r : Result (Unit {0}) × Store)
      → run.status ≡ succeeded
      → IsStored run r.1
      → Ends base run (after_cleanup d run r)
  after_cleanup-Ends run (ok x, s) h p = record {
    same_id = refl;
    stored = p;
    ending = success h refl;
  }
  after_cleanup-Ends run (err e, s) h p =
      let (at, t) = base.now s in
      record {
        same_id = refl;
        stored =
            logged-IsStored (cleanup_failed at e run) run.status t
              (keep-Placed s t (apart.reads s) p);
        ending = success h refl;
      }

  succeed_run-Ends :
      (run : ScheduledTaskRun) (before : ScheduledTaskRunStatus) (cleanup : Option ℕ) (s : Store)
      → HasRow run before s
      → Ends base run (succeed_run d task run cleanup s)
  succeed_run-Ends run before cleanup s p =
      let run' = record run { status = succeeded } in
      let s1 = logged (update_scheduled_task_run run' s) in
      let stored = logged-IsStored run' before s p in
      let s2 = deliver_run_result d task run' s1 in
      let k = deliver-Keeps u base apart task run' s1 stored.through in
      let delivered = keep-Placed s1 s2 k stored in
      after_cleanup-Ends run' (cleaned d cleanup s2) refl
        (keep-Placed s2 _ (cleaned-Keeps u base apart cleanup s2) delivered)

  end_turn-Ends :
      (run : ScheduledTaskRun) (before : ScheduledTaskRunStatus) (cleanup : Option ℕ)
      (reason : Option Error) (s : Store)
      → HasRow run before s
      → Ends base run (end_turn d task run cleanup reason s)
  end_turn-Ends run before cleanup none s p = succeed_run-Ends run before cleanup s p
  end_turn-Ends run before cleanup (some e) s p =
      after_failure-Ends run cleanup _ (fail_by-Ends run before _ _ e s p)

  execute_in-Ends :
      (run : ScheduledTaskRun) (before : ScheduledTaskRunStatus) (cleanup : Option ℕ)
      (workdir : Text) (s : Store)
      → HasRow run before s
      → Ends base run (execute_in d task run cleanup workdir s)
  execute_in-Ends run before cleanup workdir s p =
      let input = turn_input d task run workdir in
      let ((result, reason), s1) = base.run_turn [] input s in
      let (at, s2) = base.now s1 in
      end_turn-Ends (finished_form at result run) before cleanup reason s2
        (keep-Placed s1 s2 (apart.reads s1) (keep-Placed s s1 (apart.runs [] input s) p))

  execute_mode-Ends :
      (mode : Mode) (run : ScheduledTaskRun) (before : ScheduledTaskRunStatus) (s : Store)
      → HasRow run before s
      → Ends base run (execute_mode d mode task run s)
  execute_mode-Ends journal run before s p =
      execute_in-Ends (record run { workdir_path = base.workdir }) before none base.workdir s p
  execute_mode-Ends thread run before s p =
      by_worktree (base.prepare_temporary_worktree run.scheduled_run_id s)
        (keep-Placed s _ (apart.prepares run.scheduled_run_id s) p)
    where
      by_worktree :
          (r : Result (Text × ℕ) × Store)
          → HasRow run before r.1
          → Ends base run (in_worktree d task run r)
      by_worktree (err e, t) q = fail_by-Ends run before _ _ e t q
      by_worktree (ok (path, cleanup), t) q =
          execute_in-Ends (record run { temp_worktree_path = path; workdir_path = path }) before
            (some cleanup) path t q

  -- Let Go's tables lower the texts of the two constraints, and let the calls besides the store leave
  -- the runs and the tasks alone. Let the driver go through, and let the run have its row.
  -- Executing the run ends with the row of the run as succeeded, canceled or failed, as the run that
  -- comes back: succeeded if its turn went through, canceled if the turn or the worktree failed by a
  -- cancellation or with the context done, and failed if it failed otherwise. A failed first attempt
  -- has a retry, which is pending, with its row, unless the table has the next attempt or the id that
  -- is generated for it, or the task is gone; no other run has one.
  pub execute_run-Ends :
      (run : ScheduledTaskRun) (before : ScheduledTaskRunStatus) (s : Store)
      → HasRow run before s
      → Ends base run (execute_run d task run s)
        × Caused u base task
            (started_run u base task run s)
            (started_store u base task run s)
            (execute_run d task run s).0.0.status
  unfolding execute_run
  execute_run-Ends run before s p =
      let (at, s1) = base.now s in
      let run' = started_form at run in
      let (t, e, stored, same) =
        update-IsStored run' before s1 (keep-Placed s s1 (apart.reads s) p) in
      rw e (
        execute_mode-Ends base.mode run' running t stored,
        subst (λ v. Caused u base task run' v (execute_mode d base.mode task run' t).0.0.status)
            (sym (ap (λ y. y.1) e)) (execute_mode-Caused u base task base.mode run' t refl),
      )
