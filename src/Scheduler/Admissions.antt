-- ===== src/Scheduler/Admissions.antt =====
-- What a tick admits for a task.
use mathlib.Core.List.{Mem}
use claw.Prelude.{
  ◌∙◌, ◌≤◌, ◌<◌, ◌≡◌, refl, sym, ◌⊎◌, inl, inr, true, Option, none, some, [], ◌∷◌, arith, first,
  select,
}
use claw.Prelude.Text.{Text}
use claw.Errors.{Result, ok}
use claw.Types.{Time, mode_text}
use claw.TaskBranch.{Unicode}
use claw.ScheduledTasks.{ScheduledTask, ScheduledTaskRun, pending, is_cron}
use claw.Schedule.{ParsedSchedule, parse_scheduled_task_schedule}
use claw.Store.{Tables, Store, query}
use claw.Store.Tasks.{order_by}
use claw.Store.Scheduled.{
  has_task_id, of_task, later_run, clashes, admitted_form, get_latest_scheduled_task_run_for_task,
}
use claw.Store.Scheduled.Clashes.{clash-cases}
use claw.Store.Scheduled.Runs.{IsUnique}
use claw.Store.Scheduled.Admission.{
  LowersErrors, IsThrough, driver-through, Admitted, taken, orphan, admitted, admit-Admitted,
}
use claw.Store.Scheduled.Placed.{IsStored, Keeps, with_run-IsStored}
use claw.Store.Scheduled.Deliveries.{Keeps-refl}
use claw.Scheduler.{Dependencies, anchor_of, due_at}
use claw.Scheduler.Execution.{pending_run}
use claw.Scheduler.Ticks.{Admissions, admitted_to, admit_due, tick_task}
use claw.Scheduler.Due.{Advances, IsLatestDue, NothingDue, Fires-lt, due_at_lem}
use claw.Scheduler.Retries.{on_sqlite}
use claw.Scheduler.Laws.{IsApart}

-- The latest run of a task, as the store orders them.
unfoldable pub latest_run : Text → Tables → Option ScheduledTaskRun
latest_run id t =
    first (λ row. true) (order_by later_run (select (of_task id) t.scheduled_task_runs))

module _ (base : Dependencies Store) (started_at now : Time) (task : ScheduledTask)
    (next : ParsedSchedule) (s : Store) where
  -- Where the search for due times begins.
  abbrev pub anchor : Time
  anchor = anchor_of started_at task (latest_run task.scheduled_task_id s.tables)

  -- The first attempt of the task at a due time, with the id that is generated for it.
  abbrev IsAdmissible : ScheduledTaskRun → Time → Type 0
  IsAdmissible run due =
      (run.scheduled_task_id ≡ task.scheduled_task_id)
      × (run.scheduled_for ≡ due)
      × (run.attempt ≡ 1)
      × (run.status ≡ pending)
      × (run.scheduled_run_id ≡ (base.new_run_id s).0)

  -- What becomes of a task at a tick: nothing is due, or of the last due time the first attempt is in
  -- the table, the generated id is in the table, the task is gone, or the first attempt is admitted.
  pub data Ticked (r : Admissions × Store) : Type 0 where
    idle : NothingDue next anchor now → r.0 ≡ [] → Keeps s r.1 → Ticked r
    known :
        (due : Time)
        → (row : ScheduledTaskRun) → IsLatestDue next anchor now due
        → Mem row s.tables.scheduled_task_runs
        → row.scheduled_task_id ≡ task.scheduled_task_id
        → row.scheduled_for ≡ due
        → row.attempt ≡ 1
        → r.0 ≡ []
        → Keeps s r.1
        → Ticked r
    used_id :
        (due : Time)
        → (row : ScheduledTaskRun) → IsLatestDue next anchor now due
        → Mem row s.tables.scheduled_task_runs
        → row.scheduled_run_id ≡ (base.new_run_id s).0
        → r.0 ≡ []
        → Keeps s r.1
        → Ticked r
    gone :
        (due : Time)
        → IsLatestDue next anchor now due
        → first (has_task_id task.scheduled_task_id) s.tables.scheduled_tasks ≡ none
        → r.0 ≡ []
        → Keeps s r.1
        → Ticked r
    admits :
        (due : Time)
        → (run : ScheduledTaskRun) → IsLatestDue next anchor now due
        → IsAdmissible run due
        → (is_cron task.schedule_kind ≡ true → started_at ≤ due)
        → first (clashes run) s.tables.scheduled_task_runs ≡ none
        → r.0 ≡ (task, run) ∷ []
        → IsStored run r.1
        → Ticked r

  anchor-floor :
      (latest : Option ScheduledTaskRun) (t : Time)
      → anchor_of started_at task latest < t
      → is_cron task.schedule_kind ≡ true
      → started_at ≤ t
  unfolding anchor_of
  anchor-floor latest t h c = ground arith

  clash-Ticked :
      (due : Time) (run row : ScheduledTaskRun) (t : Store)
      → Keeps s t
      → IsLatestDue next anchor now due
      → IsAdmissible run due
      → first (clashes run) t.tables.scheduled_task_runs ≡ some row
      → Ticked ([], t)
  clash-Ticked due run row t k late (of_task, at, first_one, _, id) e =
      let (m, why) = clash-cases run row s.tables.scheduled_task_runs (rw (sym k.runs) e) in
      elim why [
        | inl same ↦ used_id due row late m (same ∙ id) refl k
        | inr o ↦
            known due row late m (o.of_task ∙ of_task) (o.due_then ∙ at) (o.attempted ∙ first_one)
              refl k
      ]

  admitted_to-Ticked :
      (due : Time) (run : ScheduledTaskRun) (t : Store)
      (r : Result (Option ScheduledTaskRun) × Store)
      → Keeps s t
      → IsThrough t
      → IsUnique s.tables.scheduled_task_runs
      → IsLatestDue next anchor now due
      → anchor < due
      → IsAdmissible run due
      → Admitted run t r
      → Ticked (admitted_to task r)
  admitted_to-Ticked due run t r k through unique late after a (taken row e h) =
      rw h (clash-Ticked due run row t k late a e)
  admitted_to-Ticked due run t r k through unique late after a (orphan x e n h) =
      rw h (gone due late (rw (sym a.0) (rw (sym k.tasks) n)) refl k)
  admitted_to-Ticked due run t r k through unique late after a (admitted owner e n h) = rw h (
      admits due run late a (anchor-floor _ due after) (rw (sym k.runs) e) refl
        (with_run-IsStored run t through (rw k.runs unique) e))

module _ (u : Unicode) (base : Dependencies Store) (laws : LowersErrors u) (apart : IsApart base)
    (started_at now : Time) (task : ScheduledTask) (next : ParsedSchedule) where
  admit_due-Ticked :
      (s : Store)
      → Advances next
      → IsThrough s
      → IsUnique s.tables.scheduled_task_runs
      → Ticked base started_at now task next s (
          admit_due
            (on_sqlite u base)
            task
            (due_at next now (anchor base started_at now task next s))
            s)
  unfolding admitted_form
  admit_due-Ticked s advances through unique =
      by_due (due_at_lem next advances now (anchor base started_at now task next s))
    where
      by_due :
          (((due_at next now (anchor base started_at now task next s)) ≡ none)
              × NothingDue next (anchor base started_at now task next s) now)
            ⊎ ((t : Time) × (due_at next now (anchor base started_at now task next s) ≡ some t)
                × IsLatestDue next (anchor base started_at now task next s) now t)
          → Ticked base started_at now task next s (
              admit_due
                (on_sqlite u base)
                task
                (due_at next now (anchor base started_at now task next s))
                s)
      by_due (inl (e, nothing)) = rw e (idle nothing refl (Keeps-refl s))
      by_due (inr (due, e, late)) =
          let (id, t) = base.new_run_id s in
          let k = apart.names_run s in
          let fresh = pending_run id task.scheduled_task_id (mode_text base.mode) due in
          rw e (
            admitted_to-Ticked base started_at now task next s due (admitted_form t.now fresh) t _ k
              (k.through through) unique late (Fires-lt next advances now _ due late.fires)
              (refl, refl, refl, refl, refl) (admit-Admitted u laws fresh t (k.through through)))

  -- Let Go's tables lower the texts of the two constraints, let the calls besides the store leave the
  -- runs and the tasks alone, and let the schedule of the task parse and give later times. Let the
  -- driver go through and the keys of the runs be unique.
  -- At a tick nothing is due behind the anchor up to now and nothing is admitted, or the last due time
  -- is. Of it the table has a first attempt of the task, or the id that is generated, or the task is
  -- gone, and nothing is admitted; or its first attempt was not there and now is, as pending, and is
  -- the one run that is admitted. A run of a cron task is never admitted for a time before the
  -- scheduler started.
  pub tick_task-Ticked :
      (s : Store)
      → parse_scheduled_task_schedule base.quote task (some base.location) ≡ ok next
      → Advances next
      → IsThrough s
      → IsUnique s.tables.scheduled_task_runs
      → Ticked base started_at now task next s (tick_task (on_sqlite u base) started_at now task s)
  unfolding tick_task get_latest_scheduled_task_run_for_task query latest_run
  tick_task-Ticked s parsed advances through unique =
      rw parsed (rw (driver-through s through) (admit_due-Ticked s advances through unique))
