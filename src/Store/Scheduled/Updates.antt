-- ===== src/Store/Scheduled/Updates.antt =====
-- internal/store/sqlite/store.go: changes of runs, the runs of a due time, and deliveries.
use claw.Prelude.{
  Bool, not, ◌&&◌, Option, none, some, List, [], ◌∷◌, ◌++◌, map, ltb, ◌==◌, if◌then◌else◌, first,
  select,
}
use claw.Prelude.Text.{Text, codes, text_eq}
use claw.Errors.{sentinel, message, no_rows, Action, ◌>>=◌, ◌>>◌, or_wrap, fail}
use claw.TaskBranch.{Unicode}
use claw.Types.{Time}
use claw.ScheduledTasks.{
  ScheduledTaskRun, ScheduledTaskDelivery, ScheduledTaskDeliveryStatus, pending, ScheduledTaskStore,
}
use claw.Store.{Store, driver, query, exec, clock}
use claw.Store.Tasks.{order_by, or_now}
use claw.Store.Scheduled.{
  of_task, has_run_id, same_occurrence, list_scheduled_tasks, list_enabled_scheduled_tasks,
  get_scheduled_task_by_id, get_scheduled_task_by_name, create_scheduled_task,
  update_scheduled_task, delete_scheduled_task, get_latest_scheduled_task_run_for_task,
  admit_scheduled_task_run,
}

-- SET …: the columns but the keys and created_at.
abbrev pub changed_run : ScheduledTaskRun → ScheduledTaskRun → ScheduledTaskRun
changed_run run row = record run {
  scheduled_task_id = row.scheduled_task_id;
  created_at = row.created_at;
}

unfoldable pub change_run : ScheduledTaskRun → List ScheduledTaskRun → List ScheduledTaskRun
change_run run =
    map (λ row. if has_run_id run.scheduled_run_id row then changed_run run row else row)

-- Another row that has what the changed row is to have.
abbrev pub overlaps : ScheduledTaskRun → ScheduledTaskRun → Bool
overlaps changed row = not (has_run_id changed.scheduled_run_id row) && same_occurrence changed row

unfoldable pub store_run : ScheduledTaskRun → Option ScheduledTaskRun → Action Store (Unit {0})
unfolding change_run
store_run run none s = fail (sentinel no_rows) s
store_run run (some row) s =
    elim (first (overlaps (changed_run run row)) s.tables.scheduled_task_runs) [
      | some other ↦
          or_wrap (codes "update scheduled task run")
            (fail (message (codes "UNIQUE constraint failed: scheduled_task_runs"))) s
      | none ↦ exec (λ t. record t { scheduled_task_runs = change_run run t.scheduled_task_runs }) s
    ]

unfoldable pub update_scheduled_task_run : ScheduledTaskRun → Action Store (Unit {0})
update_scheduled_task_run run = do
  now ← clock
  or_wrap (codes "update scheduled task run") driver
  row ← query (λ t. first (has_run_id run.scheduled_run_id) t.scheduled_task_runs)
  store_run (record run { updated_at = or_now now run.updated_at }) row

-- ORDER BY attempt ASC
abbrev by_attempt : ScheduledTaskRun → ScheduledTaskRun → Bool
by_attempt a b = ltb a.attempt b.attempt

unfoldable pub list_scheduled_task_runs_for_due_time :
    Text → Time → Action Store (List ScheduledTaskRun)
list_scheduled_task_runs_for_due_time id scheduled_for = do
  or_wrap (codes "query scheduled task runs") driver
  query (λ t.
      order_by by_attempt (
        select (λ row. of_task id row && row.scheduled_for == scheduled_for) t.scheduled_task_runs))

abbrev or_pending : ScheduledTaskDeliveryStatus → ScheduledTaskDeliveryStatus
or_pending ScheduledTaskDeliveryStatus.unset = pending
or_pending status = status

abbrev pub has_delivery_id : Text → ScheduledTaskDelivery → Bool
has_delivery_id id row = text_eq row.scheduled_delivery_id id

-- The primary key, and REFERENCES scheduled_task_runs(scheduled_run_id).
unfoldable pub insert_delivery : ScheduledTaskDelivery → Action Store (Unit {0})
insert_delivery delivery s =
    elim (first (has_delivery_id delivery.scheduled_delivery_id)
      s.tables.scheduled_task_deliveries) [
        | some row ↦ fail (message (codes "UNIQUE constraint failed: scheduled_task_deliveries")) s
        | none ↦ elim (first (has_run_id delivery.scheduled_run_id) s.tables.scheduled_task_runs) [
          | none ↦ fail (message (codes "FOREIGN KEY constraint failed")) s
          | some run ↦
              exec
                (λ t. record t {
                  scheduled_task_deliveries = t.scheduled_task_deliveries ++ delivery ∷ [];
                })
                s
        ]
      ]

-- The defaults of a new delivery.
abbrev pub created_form : Time → ScheduledTaskDelivery → ScheduledTaskDelivery
created_form now delivery = record delivery {
  created_at = or_now now delivery.created_at;
  updated_at = or_now now delivery.updated_at;
  status = or_pending delivery.status;
}

unfoldable pub create_scheduled_task_delivery : ScheduledTaskDelivery → Action Store (Unit {0})
create_scheduled_task_delivery delivery = do
  now ← clock
  or_wrap (codes "create scheduled task delivery")
      (driver >> insert_delivery (created_form now delivery))

abbrev changed_delivery : ScheduledTaskDelivery → ScheduledTaskDelivery → ScheduledTaskDelivery
changed_delivery delivery row = record delivery {
  scheduled_run_id = row.scheduled_run_id;
  created_at = row.created_at;
}

unfoldable pub change_delivery :
    ScheduledTaskDelivery → List ScheduledTaskDelivery → List ScheduledTaskDelivery
change_delivery delivery = map (λ row.
    if has_delivery_id delivery.scheduled_delivery_id row
    then changed_delivery delivery row
    else row)

unfoldable pub store_delivery :
    ScheduledTaskDelivery → Option ScheduledTaskDelivery → Action Store (Unit {0})
unfolding change_delivery
store_delivery delivery none = fail (sentinel no_rows)
store_delivery delivery (some row) = exec (λ t. record t {
  scheduled_task_deliveries = change_delivery delivery t.scheduled_task_deliveries;
})

unfoldable pub update_scheduled_task_delivery : ScheduledTaskDelivery → Action Store (Unit {0})
update_scheduled_task_delivery delivery = do
  now ← clock
  or_wrap (codes "update scheduled task delivery") driver
  row ←
      query
        (λ t. first (has_delivery_id delivery.scheduled_delivery_id) t.scheduled_task_deliveries)
  store_delivery (record delivery { updated_at = or_now now delivery.updated_at }) row

abbrev pub scheduled_store : Unicode → ScheduledTaskStore Store
scheduled_store u = record {
  list_scheduled_tasks = list_scheduled_tasks;
  list_enabled_scheduled_tasks = list_enabled_scheduled_tasks;
  get_scheduled_task_by_id = get_scheduled_task_by_id;
  get_scheduled_task_by_name = get_scheduled_task_by_name;
  create_scheduled_task = create_scheduled_task;
  update_scheduled_task = update_scheduled_task;
  delete_scheduled_task = delete_scheduled_task;
  get_latest_scheduled_task_run_for_task = get_latest_scheduled_task_run_for_task;
  admit_scheduled_task_run = admit_scheduled_task_run u;
  update_scheduled_task_run = update_scheduled_task_run;
  list_scheduled_task_runs_for_due_time = list_scheduled_task_runs_for_due_time;
  create_scheduled_task_delivery = create_scheduled_task_delivery;
  update_scheduled_task_delivery = update_scheduled_task_delivery;
}
