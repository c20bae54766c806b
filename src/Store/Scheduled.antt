-- ===== src/Store/Scheduled.antt =====
-- internal/store/sqlite/store.go: the tables of scheduled tasks, of their runs and of the deliveries
-- of their reports, with the keys of migrations/sqlite. Foreign keys are enforced.
pub mod Updates
pub mod Runs
pub mod Clashes
pub mod Admission
pub mod Placed
pub mod Deliveries
use claw.Prelude.{
  ℕ, ◌≡◌, Bool, true, false, not, ◌&&◌, ◌||◌, Option, none, some, List, [], ◌∷◌, ◌++◌, map, ltb,
  ◌==◌, if◌then◌else◌, first, select,
}
use claw.Prelude.Text.{Text, codes, text_eq, contains}
use claw.Errors.{
  Error, sentinel, message, wrap, error_text, no_rows, Result, ok, err, Action, ◌>>=◌, ◌>>◌,
  or_wrap, attempt, succeed, fail,
}
use claw.TaskBranch.{Unicode}
use claw.Types.{Time}
use claw.ScheduledTasks.{
  ScheduledTask, ScheduledTaskRun, ScheduledTaskRunStatus, pending, ScheduledTaskDelivery,
}
use claw.Store.{Tables, Store, driver, query, exec, clock}
use claw.Store.Stamp.{text_lt, stamp_lt}
use claw.Store.Tasks.{order_by, or_now}

-- ORDER BY name ASC
abbrev by_name : ScheduledTask → ScheduledTask → Bool
by_name a b = text_lt a.name b.name

unfoldable pub list_scheduled_tasks : Action Store (List ScheduledTask)
list_scheduled_tasks = do
  or_wrap (codes "query scheduled tasks") driver
  query (λ t. order_by by_name t.scheduled_tasks)

unfoldable pub list_enabled_scheduled_tasks : Action Store (List ScheduledTask)
list_enabled_scheduled_tasks = do
  or_wrap (codes "query enabled scheduled tasks") driver
  query (λ t. order_by by_name (select (λ row. row.enabled) t.scheduled_tasks))

abbrev pub has_task_id : Text → ScheduledTask → Bool
has_task_id id row = text_eq row.scheduled_task_id id

unfoldable pub get_scheduled_task_by_id : Text → Action Store (Option ScheduledTask)
get_scheduled_task_by_id id = do
  or_wrap (codes "scan scheduled task") driver
  query (λ t. first (has_task_id id) t.scheduled_tasks)

unfoldable pub get_scheduled_task_by_name : Text → Action Store (Option ScheduledTask)
get_scheduled_task_by_name name = do
  or_wrap (codes "scan scheduled task") driver
  query (λ t. first (λ row. text_eq row.name name) t.scheduled_tasks)

-- The primary key, and the unique name.
abbrev takes_task : ScheduledTask → ScheduledTask → Bool
takes_task task row = has_task_id task.scheduled_task_id row || text_eq row.name task.name

unfoldable pub insert_scheduled_task : ScheduledTask → Action Store (Unit {0})
insert_scheduled_task task s = elim (first (takes_task task) s.tables.scheduled_tasks) [
  | some row ↦ fail (message (codes "UNIQUE constraint failed: scheduled_tasks")) s
  | none ↦ exec (λ t. record t { scheduled_tasks = t.scheduled_tasks ++ task ∷ [] }) s
]

unfoldable pub create_scheduled_task : ScheduledTask → Action Store (Unit {0})
create_scheduled_task task = do
  now ← clock
  or_wrap (codes "create scheduled task") (
      driver
      >> insert_scheduled_task (record task {
        created_at = or_now now task.created_at;
        updated_at = or_now now task.updated_at;
      }))

abbrev takes_name : ScheduledTask → ScheduledTask → Bool
takes_name task row = not (has_task_id task.scheduled_task_id row) && text_eq row.name task.name

abbrev change_scheduled_tasks : ScheduledTask → List ScheduledTask → List ScheduledTask
change_scheduled_tasks task = map (λ row.
    if has_task_id task.scheduled_task_id row
    then record task { created_at = row.created_at }
    else row)

-- The statement fails on a name that another row has, if there is a row to change.
abbrev rename_scheduled_task :
    ScheduledTask → Option ScheduledTask → Option ScheduledTask → Action Store (Unit {0})
rename_scheduled_task task none taken = fail (sentinel no_rows)
rename_scheduled_task task (some row) (some other) =
    or_wrap (codes "update scheduled task")
      (fail (message (codes "UNIQUE constraint failed: scheduled_tasks.name")))
rename_scheduled_task task (some row) none =
    exec (λ t. record t { scheduled_tasks = change_scheduled_tasks task t.scheduled_tasks })

unfoldable pub update_scheduled_task : ScheduledTask → Action Store (Unit {0})
update_scheduled_task task = do
  now ← clock
  or_wrap (codes "update scheduled task") driver
  row ← query (λ t. first (has_task_id task.scheduled_task_id) t.scheduled_tasks)
  taken ← query (λ t. first (takes_name task) t.scheduled_tasks)
  rename_scheduled_task (record task { updated_at = or_now now task.updated_at }) row taken

abbrev pub of_task : Text → ScheduledTaskRun → Bool
of_task id row = text_eq row.scheduled_task_id id

abbrev pub has_run_id : Text → ScheduledTaskRun → Bool
has_run_id id row = text_eq row.scheduled_run_id id

-- ON DELETE CASCADE: the deliveries of a run, and the runs of a task with their deliveries.
unfoldable pub drop_deliveries :
    List ScheduledTaskRun → List ScheduledTaskDelivery → List ScheduledTaskDelivery
drop_deliveries [] rows = rows
drop_deliveries (run ∷ runs) rows =
    drop_deliveries runs
      (select (λ row. not (text_eq row.scheduled_run_id run.scheduled_run_id)) rows)

unfoldable pub delete_cascade : Text → Tables → Tables
delete_cascade id t = record t {
  scheduled_tasks = select (λ row. not (has_task_id id row)) t.scheduled_tasks;
  scheduled_task_runs = select (λ row. not (of_task id row)) t.scheduled_task_runs;
  scheduled_task_deliveries =
      drop_deliveries (select (of_task id) t.scheduled_task_runs) t.scheduled_task_deliveries;
}

unfoldable pub delete_scheduled_task : Text → Action Store (Unit {0})
delete_scheduled_task id = do
  or_wrap (codes "delete scheduled task") driver
  exec (delete_cascade id)

-- ORDER BY scheduled_for DESC, attempt DESC
abbrev pub later_run : ScheduledTaskRun → ScheduledTaskRun → Bool
later_run a b =
    stamp_lt b.scheduled_for a.scheduled_for
    || (b.scheduled_for == a.scheduled_for && ltb b.attempt a.attempt)

unfoldable pub get_latest_scheduled_task_run_for_task :
    Text → Action Store (Option ScheduledTaskRun)
get_latest_scheduled_task_run_for_task id = do
  or_wrap (codes "scan scheduled task run") driver
  query (λ t. first (λ row. true) (order_by later_run (select (of_task id) t.scheduled_task_runs)))

abbrev or_pending : ScheduledTaskRunStatus → ScheduledTaskRunStatus
or_pending ScheduledTaskRunStatus.unset = pending
or_pending status = status

-- The defaults of a new run.
unfoldable pub admitted_form : Time → ScheduledTaskRun → ScheduledTaskRun
admitted_form now run = record run {
  created_at = or_now now run.created_at;
  updated_at = or_now now run.updated_at;
  status = or_pending run.status;
  attempt = if run.attempt == 0 then 1 else run.attempt;
}

-- UNIQUE (scheduled_task_id, scheduled_for, attempt)
abbrev pub same_occurrence : ScheduledTaskRun → ScheduledTaskRun → Bool
same_occurrence run row =
    text_eq row.scheduled_task_id run.scheduled_task_id
    && (row.scheduled_for == run.scheduled_for && row.attempt == run.attempt)

abbrev pub clashes : ScheduledTaskRun → ScheduledTaskRun → Bool
clashes run row = has_run_id run.scheduled_run_id row || same_occurrence run row

-- REFERENCES scheduled_tasks(scheduled_task_id)
unfoldable pub insert_run : ScheduledTaskRun → Action Store (Unit {0})
insert_run run s = elim (first (clashes run) s.tables.scheduled_task_runs) [
  | some row ↦ fail (message (codes "UNIQUE constraint failed: scheduled_task_runs")) s
  | none ↦ elim (first (has_task_id run.scheduled_task_id) s.tables.scheduled_tasks) [
    | none ↦ fail (message (codes "FOREIGN KEY constraint failed")) s
    | some task ↦ exec (λ t. record t { scheduled_task_runs = t.scheduled_task_runs ++ run ∷ [] }) s
  ]
]

unfoldable pub is_unique_constraint_error : Unicode → Error → Bool
unfolding error_text contains
is_unique_constraint_error u e =
    contains (map u.to_lower (error_text e)) (codes "unique constraint failed")

abbrev pub admitted_as :
    Unicode → ScheduledTaskRun → Result (Unit {0}) → Action Store (Option ScheduledTaskRun)
admitted_as u run (ok x) = succeed (some run)
admitted_as u run (err e) =
    if is_unique_constraint_error u e
    then succeed none
    else fail (wrap (codes "create scheduled task run") e)

unfoldable pub admit_scheduled_task_run :
    Unicode → ScheduledTaskRun → Action Store (Option ScheduledTaskRun)
unfolding admitted_form
admit_scheduled_task_run u run = do
  now ← clock
  inserted ← attempt (driver >> insert_run (admitted_form now run))
  admitted_as u (admitted_form now run) inserted
