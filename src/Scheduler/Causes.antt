-- ===== src/Scheduler/Causes.antt =====
-- Why a run ends as succeeded, canceled or failed.
use claw.Prelude.{
  ℕ, ◌≡◌, refl, Bool, true, false, Option, none, some, [], ◌&&◌, ◌||◌, ltb, Bool-cases, inl, inr,
}
use claw.Prelude.Text.{Text}
use claw.Errors.{Error, Result, ok, err}
use claw.Types.{Mode, journal, thread, RunTurnResult}
use claw.TaskBranch.{Unicode}
use claw.ScheduledTasks.{
  ScheduledTask, ScheduledTaskRun, ScheduledTaskRunStatus, is_failed, succeeded, failed, canceled,
}
use claw.Store.{Store}
use claw.Store.Scheduled.Updates.{update_scheduled_task_run}
use claw.Scheduler.{Dependencies, is_cancellation_error}
use claw.Scheduler.Execution.{
  started_form, fail_run, fail_by, retried, after_cleanup, end_turn, in_worktree, execute_mode,
  turn_input, build_scheduled_run_prompt,
}
use claw.Scheduler.Retries.{on_sqlite}

module _ (u : Unicode) (base : Dependencies Store) (task : ScheduledTask) where
  abbrev d : Dependencies Store
  d = on_sqlite u base

  -- The run as it is started, and the store then.
  abbrev pub started_run : ScheduledTaskRun → Store → ScheduledTaskRun
  started_run run s = started_form (base.now s).0 run

  abbrev pub started_store : ScheduledTaskRun → Store → Store
  started_store run s = (update_scheduled_task_run (started_run run s) (base.now s).1).1

  -- What became of a started run: its turn in the working directory in journal mode, and in thread
  -- mode in a worktree of its own, or no worktree.
  pub data Attempted (run : ScheduledTaskRun) (v : Store) : Option Error → Store → Type 0 where
    in_workdir :
        (result : RunTurnResult) (reason : Option Error) (w : Store)
        → base.mode ≡ journal
        → base.run_turn [] (turn_input d task run base.workdir) v ≡ ((result, reason), w)
        → Attempted run v reason (base.now w).1
    no_worktree :
        (e : Error) (w : Store)
        → base.mode ≡ thread
        → base.prepare_temporary_worktree run.scheduled_run_id v ≡ (err e, w)
        → Attempted run v (some e) w
    in_own_worktree :
        (path : Text) (cleanup : ℕ) (t : Store) (result : RunTurnResult) (reason : Option Error)
        (w : Store)
        → base.mode ≡ thread
        → base.prepare_temporary_worktree run.scheduled_run_id v ≡ (ok (path, cleanup), t)
        → base.run_turn [] (turn_input d task run path) t ≡ ((result, reason), w)
        → Attempted run v reason (base.now w).1

  -- The status that a run ends with, and why.
  pub data Caused (run : ScheduledTaskRun) (v : Store) : ScheduledTaskRunStatus → Type 0 where
    went_through : (w : Store) → Attempted run v none w → Caused run v succeeded
    was_canceled :
        (e : Error) (w : Store)
        → Attempted run v (some e) w
        → (is_cancellation_error e || base.is_done w) ≡ true
        → Caused run v canceled
    was_error :
        (e : Error) (w : Store)
        → Attempted run v (some e) w
        → (is_cancellation_error e || base.is_done w) ≡ false
        → Caused run v failed

  retried_run :
      (run : ScheduledTaskRun) (r : Result (Option ScheduledTaskRun) × Store)
      → (retried run r).0.0 ≡ run
  retried_run run (ok o, s) = refl
  retried_run run (err e, s) = refl

  fail_run-status :
      (run : ScheduledTaskRun) (status : ScheduledTaskRunStatus) (c m : Text) (may_retry : Bool)
      (s : Store)
      → (fail_run d run status c m may_retry s).0.0.status ≡ status
  unfolding fail_run
  fail_run-status run status c m may_retry s =
      elim (Bool-cases (may_retry && is_failed status && ltb run.attempt 2)) [
        | inl h ↦ rw h (rw retried_run refl)
        | inr h ↦ rw h refl
      ]

  module _ (run : ScheduledTaskRun) (v : Store) where
    fail_by-Caused :
        (ended : ScheduledTaskRun) (c f : Text) (e : Error) (s : Store)
        → Attempted run v (some e) s
        → Caused run v (fail_by d ended c f e s).0.0.status
    fail_by-Caused ended c f e s a = elim (Bool-cases (is_cancellation_error e || base.is_done s)) [
      | inl h ↦ rw (h, fail_run-status) (was_canceled e s a h)
      | inr h ↦ rw (h, fail_run-status) (was_error e s a h)
    ]

    after_cleanup-status :
        (ended : ScheduledTaskRun) (r : Result (Unit {0}) × Store)
        → (after_cleanup d ended r).0.0.status ≡ ended.status
    after_cleanup-status ended (ok x, s) = refl
    after_cleanup-status ended (err e, s) = refl

    end_turn-Caused :
        (ended : ScheduledTaskRun) (cleanup : Option ℕ) (reason : Option Error) (s : Store)
        → Attempted run v reason s
        → Caused run v (end_turn d task ended cleanup reason s).0.0.status
    end_turn-Caused ended cleanup none s a = rw after_cleanup-status (went_through s a)
    end_turn-Caused ended cleanup (some e) s a = fail_by-Caused ended _ _ e s a

  pub execute_mode-Caused :
      (mode : Mode) (run : ScheduledTaskRun) (v : Store)
      → base.mode ≡ mode
      → Caused run v (execute_mode d mode task run v).0.0.status
  unfolding build_scheduled_run_prompt
  execute_mode-Caused journal run v m =
      let ((result, reason), w) = base.run_turn [] (turn_input d task run base.workdir) v in
      end_turn-Caused run v _ none reason (base.now w).1 (in_workdir result reason w m refl)
  execute_mode-Caused thread run v m =
      by_worktree (base.prepare_temporary_worktree run.scheduled_run_id v) refl
    where
      by_worktree :
          (r : Result (Text × ℕ) × Store)
          → base.prepare_temporary_worktree run.scheduled_run_id v ≡ r
          → Caused run v (in_worktree d task run r).0.0.status
      by_worktree (err e, w) h = fail_by-Caused run v run _ _ e w (no_worktree e w m h)
      by_worktree (ok (path, cleanup), t) h =
          let ((result, reason), w) = base.run_turn [] (turn_input d task run path) t in
          end_turn-Caused run v _ (some cleanup) reason (base.now w).1
            (in_own_worktree path cleanup t result reason w m h refl)
