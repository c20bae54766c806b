-- ===== src/Scheduler.antt =====
-- internal/app/scheduled_task_service.go: the scheduler. What runs in a goroutine of its own is
-- returned as a value, so that other calls come between; the mutex and the wait groups are not
-- modelled. The service is over an interface of the store.
pub mod Delivery
pub mod Execution
pub mod Ticks
pub mod Due
pub mod Retries
pub mod Laws
pub mod Outcomes
pub mod Causes
pub mod Executed
pub mod Admissions
pub mod Tests
use claw.Prelude.{
  ℕ, zero, suc, ◌+◌, ◌-◌, ◌*◌, ◌≡◌, Bool, true, false, not, ◌&&◌, ◌||◌, Option, none, some, List,
  [], ◌∷◌, ◌++◌, ltb, ◌==◌, if◌then◌else◌,
}
use claw.Prelude.Text.{Text, codes, is_empty, trim_space}
use claw.Errors.{
  Error, message, wrap, is_error, canceled, deadline_exceeded, Result, ok, err, Action,
}
use claw.Types.{Time, is_zero, Mode, journal, thread, mode_text, RunTurnResult, CodexTurnInput}
use claw.ScheduledTasks.{
  ScheduledTask, ScheduledTaskRun, ScheduledTaskStore, ScheduledTaskScheduleKind, pending, is_cron,
}
use claw.Schedule.{Location, ParsedSchedule, parse_scheduled_task_schedule}

-- What the service is built with; `W` is the state of the world behind these calls. A turn has a
-- result also where it has an error, and `is_done` tells whether the context is canceled.
pub record Dependencies (W : Type 0) : Type 0 where
  pub mode : Mode
  pub location : Location
  pub workdir : Text
  pub default_report_target : Text
  pub store : ScheduledTaskStore W
  pub run_turn : Text → CodexTurnInput → W → (RunTurnResult × Option Error) × W
  pub send_scheduled_report : Text → Text → Action W Text
  pub prepare_temporary_worktree : Text → Action W (Text × ℕ)
  pub run_cleanup : ℕ → Action W (Unit {0})
  pub now : W → Time × W
  pub new_run_id : W → Text × W
  pub new_delivery_id : W → Text × W
  pub is_done : W → Bool
  pub format_rfc3339 : Time → Text
  pub quote : Text → Text

-- The settings that `NewScheduledTaskService` refuses or fills in; `none` is nil.
pub record Settings : Type 0 where
  pub mode : Mode
  pub has_timezone : Bool
  pub has_store : Bool
  pub has_gateway : Bool
  pub has_report_sender : Bool
  pub has_workspace_manager : Bool
  pub tick_interval : ℕ
  pub started_at : Time

-- What `Start` and `Close` change: the flag, and when the scheduler started, zero before.
pub record Lifecycle : Type 0 where
  pub tick_interval : ℕ
  pub started : Bool
  pub started_at : Time

abbrev pub default_scheduled_task_tick_interval : ℕ
default_scheduled_task_tick_interval = 60 * 1000000000

unfoldable pub new_scheduled_task_service : Settings → Result Lifecycle
new_scheduled_task_service deps =
    if not deps.has_timezone
    then err (message (codes "timezone must not be nil"))
    else if not deps.has_store
    then err (message (codes "scheduled task store must not be nil"))
    else if not deps.has_gateway
    then err (message (codes "codex gateway must not be nil"))
    else if not deps.has_report_sender
    then err (message (codes "scheduled task report sender must not be nil"))
    else if (elim deps.mode [ thread ↦ not deps.has_workspace_manager | journal ↦ false ])
    then err (message (codes "thread mode scheduled execution requires a workspace manager"))
    else ok (record {
      tick_interval =
          if deps.tick_interval == 0
          then default_scheduled_task_tick_interval
          else deps.tick_interval;
      started = false;
      started_at = deps.started_at;
    })

-- Start: the loop begins with a tick.
unfoldable pub start : Time → Lifecycle → Result Lifecycle
start now s =
    if s.started
    then err (message (codes "scheduled task service already started"))
    else ok (record s {
      started = true;
      started_at = if is_zero s.started_at then now else s.started_at;
    })

-- Close, up to where it waits; the flag tells whether the loop is to be canceled.
unfoldable pub close : Lifecycle → Bool × Lifecycle
close s = if not s.started then (false, s) else (true, record s { started = false })

-- The loop over the due times: `latest` is the last one so far, zero before the first, and `due` the
-- next one. Each round spends a unit of fuel, and `none` is a loop that goes on.
unfoldable pub latest_due : ℕ → ParsedSchedule → Time → Time → Time → Option Time
latest_due zero next now latest due = none
latest_due (suc fuel) next now latest due =
    let rest = latest_due fuel next now due (next due) in
    if not (is_zero due) && not (ltb now due) then rest else some latest

abbrev pub anchored : Time → Option ScheduledTaskRun → Time
anchored created_at none = created_at - 1000000000
anchored created_at (some run) = run.scheduled_for

-- Where the search for due times begins: behind the latest run, or a second before the task, but for
-- a cron task not before the scheduler. (A time before the zero time counts as the zero time.)
unfoldable pub anchor_of : Time → ScheduledTask → Option ScheduledTaskRun → Time
anchor_of started_at task latest =
    let anchor = anchored task.created_at latest in
    if is_cron task.schedule_kind && not (is_zero started_at) && ltb anchor (started_at - 1)
    then started_at - 1
    else anchor

-- The due run of a task at a tick, `none` if nothing is due. As the due times go up, the rounds are
-- fewer than the nanoseconds up to now.
unfoldable pub due_at : ParsedSchedule → Time → Time → Option Time
unfolding latest_due
due_at next now anchor = elim (latest_due (suc (suc now)) next now 0 (next anchor)) [
  | none ↦ none
  | some latest ↦ if is_zero latest then none else some latest
]

unfoldable pub is_cancellation_error : Error → Bool
is_cancellation_error e = is_error e canceled || is_error e deadline_exceeded
