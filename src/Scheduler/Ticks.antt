-- ===== src/Scheduler/Ticks.antt =====
-- internal/app/scheduled_task_service.go: tick and ExecuteTaskNow. The runs that a tick admits are
-- its result: each is executed in a goroutine of its own.
use claw.Prelude.{Option, none, some, List, [], ◌∷◌, ◌++◌, if◌then◌else◌}
use claw.Prelude.Text.{Text, codes, is_empty, trim_space}
use claw.Errors.{message, wrap, Result, ok, err}
use claw.Types.{Time, mode_text}
use claw.ScheduledTasks.{ScheduledTask, ScheduledTaskRun}
use claw.Schedule.{ParsedSchedule, parse_scheduled_task_schedule}
use claw.Scheduler.{Dependencies, anchor_of, due_at}
use claw.Scheduler.Execution.{pending_run, execute_run, Ended}

abbrev pub Admissions : Type 0
Admissions = List (ScheduledTask × ScheduledTaskRun)

-- A refused or failed admission is only logged.
abbrev pub admitted_to :
    {W : Type 0} → ScheduledTask → Result (Option ScheduledTaskRun) × W → Admissions × W
admitted_to task (ok (some run), w) = ((task, run) ∷ [], w)
admitted_to task (ok none, w) = ([], w)
admitted_to task (err e, w) = ([], w)

module _ {W : Type 0} (d : Dependencies W) where
  abbrev pub admit_due : ScheduledTask → Option Time → W → Admissions × W
  admit_due task none w = ([], w)
  admit_due task (some latest_due) w =
      let (id, w1) = d.new_run_id w in
      admitted_to task (
        d.store.admit_scheduled_task_run
          (pending_run id task.scheduled_task_id (mode_text d.mode) latest_due) w1)

  abbrev pub tick_from :
      Time
      → Time
      → ScheduledTask
      → ParsedSchedule
      → Result (Option ScheduledTaskRun) × W
      → Admissions × W
  tick_from started_at now task next (err e, w) = ([], w)
  tick_from started_at now task next (ok latest, w) =
      admit_due task (due_at next now (anchor_of started_at task latest)) w

  abbrev pub tick_parsed : Time → Time → ScheduledTask → Result ParsedSchedule → W → Admissions × W
  tick_parsed started_at now task (err e) w = ([], w)
  tick_parsed started_at now task (ok next) w =
      tick_from started_at now task next
        (d.store.get_latest_scheduled_task_run_for_task task.scheduled_task_id w)

  -- One round of the loop over the tasks.
  unfoldable pub tick_task : Time → Time → ScheduledTask → W → Admissions × W
  tick_task started_at now task w =
      tick_parsed started_at now task (parse_scheduled_task_schedule d.quote task (some d.location))
        w

  unfoldable pub tick_tasks : Time → Time → List ScheduledTask → W → Admissions × W
  unfolding tick_task
  tick_tasks started_at now [] w = ([], w)
  tick_tasks started_at now (task ∷ tasks) w =
      let (runs, w1) = tick_task started_at now task w in
      let (more, w2) = tick_tasks started_at now tasks w1 in (runs ++ more, w2)

  abbrev pub tick_listed : Time → Time → Result (List ScheduledTask) × W → Admissions × W
  tick_listed started_at now (err e, w) = ([], w)
  tick_listed started_at now (ok tasks, w) = tick_tasks started_at now tasks w

  unfoldable pub tick : Time → W → Admissions × W
  unfolding tick_tasks
  tick started_at w =
      let (now, w1) = d.now w in
      tick_listed started_at now (d.store.list_enabled_scheduled_tasks w1)

  abbrev pub execute_admitted :
      ScheduledTask → Text → Result (Option ScheduledTaskRun) × W → Result Ended × W
  execute_admitted task name (err e, w) =
      (err (wrap (codes "admit execute-now scheduled task run") e), w)
  execute_admitted task name (ok none, w) = (
    err (
        message
          (codes "scheduled task " ++ (d.quote name ++ codes " execute-now run was not admitted"))),
    w,
  )
  execute_admitted task name (ok (some run), w) =
      let (ended, w1) = execute_run d task run w in (ok ended, w1)

  abbrev pub execute_found : Text → Result (Option ScheduledTask) × W → Result Ended × W
  execute_found name (err e, w) = (err (wrap (codes "load scheduled task " ++ d.quote name) e), w)
  execute_found name (ok none, w) =
      (err (message (codes "scheduled task " ++ (d.quote name ++ codes " was not found"))), w)
  execute_found name (ok (some task), w) =
      let (id, w1) = d.new_run_id w in
      let (now, w2) = d.now w1 in
      execute_admitted task name (
        d.store.admit_scheduled_task_run
          (pending_run id task.scheduled_task_id (mode_text d.mode) now) w2)

  unfoldable pub execute_task_now : Text → W → Result Ended × W
  unfolding execute_run
  execute_task_now task_name w =
      let name = trim_space task_name in
      if is_empty name
      then (err (message (codes "scheduled task name must not be empty")), w)
      else execute_found name (d.store.get_scheduled_task_by_name name w)
