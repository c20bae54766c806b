-- ===== src/Scheduler/Execution.antt =====
-- internal/app/scheduled_task_service.go: executeRun and failRun. The result is the run, and the
-- retry that is to be executed in a goroutine of its own, where there is one.
use claw.Prelude.{
  ℕ, ◌+◌, Bool, true, false, ◌&&◌, ◌||◌, Option, none, some, [], ◌∷◌, ◌++◌, ltb, if◌then◌else◌,
}
use claw.Prelude.Text.{Text, codes}
use claw.Errors.{Error, error_text, Result, ok, err}
use claw.Types.{Time, Mode, journal, thread, RunTurnResult, CodexTurnInput}
use claw.ScheduledTasks.{
  ScheduledTask, ScheduledTaskRun, ScheduledTaskRunStatus, pending, running, succeeded, failed,
  canceled, is_failed,
}
use claw.Scheduler.{Dependencies, is_cancellation_error}
use claw.Scheduler.Delivery.{logged, deliver_run_result}

abbrev pub Ended : Type 0
Ended = ScheduledTaskRun × Option ScheduledTaskRun

-- A new run of a task.
abbrev pub pending_run : Text → Text → Text → Time → ScheduledTaskRun
pending_run id task_id mode scheduled_for = record {
  scheduled_run_id = id;
  scheduled_task_id = task_id;
  mode = mode;
  scheduled_for = scheduled_for;
  attempt = 1;
  status = pending;
  codex_thread_id = [];
  workdir_path = [];
  temp_worktree_path = [];
  started_at = none;
  finished_at = none;
  error_code = [];
  error_message = [];
  response_text = [];
  created_at = 0;
  updated_at = 0;
}

-- An admitted retry is executed; an error and a run that was there are only logged.
abbrev pub retried :
    {W : Type 0} → ScheduledTaskRun → Result (Option ScheduledTaskRun) × W → Ended × W
retried run (ok retry, w) = ((run, retry), w)
retried run (err e, w) = ((run, none), w)

abbrev pub failed_form :
    Time → ScheduledTaskRunStatus → Text → Text → ScheduledTaskRun → ScheduledTaskRun
failed_form at status error_code error_message run = record run {
  status = status;
  error_code = error_code;
  error_message = error_message;
  finished_at = some at;
  updated_at = at;
}

abbrev pub cleanup_failed : Time → Error → ScheduledTaskRun → ScheduledTaskRun
cleanup_failed at e run = record run {
  error_code = codes "workspace_cleanup_failed";
  error_message = error_text e;
  updated_at = at;
}

abbrev pub finished_form : Time → RunTurnResult → ScheduledTaskRun → ScheduledTaskRun
finished_form at result run = record run {
  codex_thread_id = result.thread_id;
  response_text = result.response_text;
  finished_at = some at;
  updated_at = at;
}

abbrev pub started_form : Time → ScheduledTaskRun → ScheduledTaskRun
started_form at run = record run { status = running; started_at = some at; updated_at = at }

-- The next attempt of a run.
abbrev pub retry_of : Text → ScheduledTaskRun → ScheduledTaskRun
retry_of id run = record (pending_run id run.scheduled_task_id run.mode run.scheduled_for) {
  attempt = run.attempt + 1;
}

module _ {W : Type 0} (d : Dependencies W) where
  unfoldable pub build_scheduled_run_prompt : ScheduledTask → ScheduledTaskRun → Text
  build_scheduled_run_prompt task run =
      codes "Scheduled task: "
      ++ (task.name
          ++ (10 ∷ codes "Due time: "
              ++ (d.format_rfc3339 run.scheduled_for ++ (10 ∷ 10 ∷ task.prompt))))

  abbrev pub retry_run : ScheduledTaskRun → W → Ended × W
  retry_run run w =
      let (id, w1) = d.new_run_id w in
      retried run (d.store.admit_scheduled_task_run (retry_of id run) w1)

  unfoldable pub fail_run :
      ScheduledTaskRun → ScheduledTaskRunStatus → Text → Text → Bool → W → Ended × W
  fail_run run status error_code error_message may_retry w =
      let (at, w1) = d.now w in
      let run' = failed_form at status error_code error_message run in
      let w2 = logged (d.store.update_scheduled_task_run run' w1) in
      if may_retry && is_failed status && ltb run.attempt 2
      then retry_run run' w2
      else ((run', none), w2)

  -- An error ends the run as canceled, with no retry, or as failed.
  abbrev pub fail_by : ScheduledTaskRun → Text → Text → Error → W → Ended × W
  fail_by run canceled_code failed_code e w =
      if is_cancellation_error e || d.is_done w
      then fail_run run canceled canceled_code (error_text e) false w
      else fail_run run failed failed_code (error_text e) true w

  abbrev pub cleaned : Option ℕ → W → Result (Unit {0}) × W
  cleaned none w = (ok tt, w)
  cleaned (some cleanup) w = d.run_cleanup cleanup w

  abbrev pub after_failure : Option ℕ → Ended × W → Ended × W
  after_failure cleanup (ended, w) = (ended, logged (cleaned cleanup w))

  abbrev pub after_cleanup : ScheduledTaskRun → Result (Unit {0}) × W → Ended × W
  after_cleanup run (ok x, w) = ((run, none), w)
  after_cleanup run (err e, w) =
      let (at, w1) = d.now w in
      (
        (cleanup_failed at e run, none),
        logged (d.store.update_scheduled_task_run (cleanup_failed at e run) w1),
      )

  abbrev pub succeed_run : ScheduledTask → ScheduledTaskRun → Option ℕ → W → Ended × W
  succeed_run task run cleanup w =
      let run' = record run { status = succeeded } in
      let w1 = logged (d.store.update_scheduled_task_run run' w) in
      after_cleanup run' (cleaned cleanup (deliver_run_result d task run' w1))

  abbrev pub end_turn : ScheduledTask → ScheduledTaskRun → Option ℕ → Option Error → W → Ended × W
  end_turn task run cleanup none w = succeed_run task run cleanup w
  end_turn task run cleanup (some e) w =
      after_failure cleanup
        (fail_by run (codes "codex_run_canceled") (codes "codex_run_failed") e w)

  abbrev pub after_turn :
      ScheduledTask → ScheduledTaskRun → Option ℕ → (RunTurnResult × Option Error) × W → Ended × W
  after_turn task run cleanup ((result, failure), w) =
      let (at, w1) = d.now w in end_turn task (finished_form at result run) cleanup failure w1

  abbrev pub turn_input : ScheduledTask → ScheduledTaskRun → Text → CodexTurnInput
  turn_input task run workdir = record {
    prompt = build_scheduled_run_prompt task run;
    image_paths = [];
    working_directory = workdir;
    progress_sink = none;
  }

  abbrev pub execute_in : ScheduledTask → ScheduledTaskRun → Option ℕ → Text → W → Ended × W
  execute_in task run cleanup workdir w =
      after_turn task run cleanup (d.run_turn [] (turn_input task run workdir) w)

  abbrev pub in_worktree : ScheduledTask → ScheduledTaskRun → Result (Text × ℕ) × W → Ended × W
  in_worktree task run (err e, w) =
      fail_by run (codes "workspace_prepare_canceled") (codes "workspace_prepare_failed") e w
  in_worktree task run (ok (path, cleanup), w) =
      execute_in task (record run { temp_worktree_path = path; workdir_path = path }) (some cleanup)
        path w

  abbrev pub execute_mode : Mode → ScheduledTask → ScheduledTaskRun → W → Ended × W
  execute_mode thread task run w =
      in_worktree task run (d.prepare_temporary_worktree run.scheduled_run_id w)
  execute_mode journal task run w =
      execute_in task (record run { workdir_path = d.workdir }) none d.workdir w

  abbrev pub execute_started : ScheduledTask → ScheduledTaskRun → Result (Unit {0}) × W → Ended × W
  execute_started task run (err e, w) = ((run, none), w)
  execute_started task run (ok x, w) = execute_mode d.mode task run w

  unfoldable pub execute_run : ScheduledTask → ScheduledTaskRun → W → Ended × W
  unfolding fail_run
  execute_run task run w =
      let (at, w1) = d.now w in
      execute_started task (started_form at run)
        (d.store.update_scheduled_task_run (started_form at run) w1)
