-- ===== src/Services.antt =====
-- internal/app/message_service.go: what the services call of the store, with the store of
-- internal/store/sqlite as the one that implements it.
use claw.Prelude.{Bool, Option, List}
use claw.Prelude.Text.{Text}
use claw.Errors.{Action}
use claw.Types.{Mode, ThreadBinding, DailySession, Task, ActiveTask}
use claw.Daily.{SessionStore}
use claw.TaskBranch.{Unicode}
use claw.Store.{Store}
use claw.Store.Bindings
use claw.Store.Tasks
use claw.Store.Daily

pub record ThreadStore (W : Type 0) : Type 0 where
  pub sessions : SessionStore W
  pub open sessions use *
  pub get_thread_binding : Mode → Text → Action W (Option ThreadBinding)
  pub upsert_thread_binding : ThreadBinding → Action W (Unit {0})
  pub delete_thread_binding : Mode → Text → Action W (Unit {0})
  pub rotate_daily_session : Text → Text → Action W DailySession
  pub create_task : Task → Action W (Unit {0})
  pub get_task : Text → Text → Action W (Option Task)
  pub update_task : Task → Action W (Unit {0})
  pub list_open_tasks : Text → Action W (List Task)
  pub has_closed_task_with_name : Text → Text → Action W Bool
  pub list_closed_ready_tasks : Action W (List Task)
  pub set_active_task : ActiveTask → Action W (Unit {0})
  pub get_active_task : Text → Action W (Option ActiveTask)
  pub clear_active_task : Text → Action W (Unit {0})
  pub close_task : Text → Text → Action W (Unit {0})

abbrev pub sqlite_store : Unicode → ThreadStore Store
sqlite_store u = record {
  sessions = Daily.session_store;
  get_thread_binding = Bindings.get_thread_binding;
  upsert_thread_binding = Bindings.upsert_thread_binding;
  delete_thread_binding = Bindings.delete_thread_binding;
  rotate_daily_session = Daily.rotate_daily_session;
  create_task = Tasks.create_task u;
  get_task = Tasks.get_task;
  update_task = Tasks.update_task u;
  list_open_tasks = Tasks.list_open_tasks;
  has_closed_task_with_name = Tasks.has_closed_task_with_name;
  list_closed_ready_tasks = Tasks.list_closed_ready_tasks;
  set_active_task = Tasks.set_active_task;
  get_active_task = Tasks.get_active_task;
  clear_active_task = Tasks.clear_active_task;
  close_task = Tasks.close_task;
}
