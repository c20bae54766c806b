-- ===== src/ScheduledTasks.antt =====
-- internal/app/scheduled_tasks.go: the records of scheduled tasks, their runs and their deliveries.
use claw.Prelude.{ℕ, Bool, true, false, Option, List}
use claw.Prelude.Text.{Text}
use claw.Errors.{Action}
use claw.Types.{Time}

-- `other` is a string that is none of the supported kinds.
pub data ScheduledTaskScheduleKind : Type 0 where
  cron at : ScheduledTaskScheduleKind
  other : Text → ScheduledTaskScheduleKind

pub record ScheduledTask : Type 0 where
  pub scheduled_task_id : Text
  pub name : Text
  pub schedule_kind : ScheduledTaskScheduleKind
  pub schedule_expr : Text
  pub prompt : Text
  pub enabled : Bool
  pub report_target : Text
  pub created_at : Time
  pub updated_at : Time
  pub disabled_at : Option Time

-- `unset` is the empty string.
pub data ScheduledTaskRunStatus : Type 0 where
  unset pending running succeeded failed canceled : ScheduledTaskRunStatus

pub record ScheduledTaskRun : Type 0 where
  pub scheduled_run_id : Text
  pub scheduled_task_id : Text
  pub mode : Text
  pub scheduled_for : Time
  pub attempt : ℕ
  pub status : ScheduledTaskRunStatus
  pub codex_thread_id : Text
  pub workdir_path : Text
  pub temp_worktree_path : Text
  pub started_at : Option Time
  pub finished_at : Option Time
  pub error_code : Text
  pub error_message : Text
  pub response_text : Text
  pub created_at : Time
  pub updated_at : Time

pub data ScheduledTaskDeliveryStatus : Type 0 where
  unset pending succeeded failed skipped : ScheduledTaskDeliveryStatus

pub record ScheduledTaskDelivery : Type 0 where
  pub scheduled_delivery_id : Text
  pub scheduled_run_id : Text
  pub report_target : Text
  pub discord_message_id : Text
  pub status : ScheduledTaskDeliveryStatus
  pub delivered_at : Option Time
  pub error_code : Text
  pub error_message : Text
  pub created_at : Time
  pub updated_at : Time

abbrev pub is_cron : ScheduledTaskScheduleKind → Bool
is_cron cron = true
is_cron at = false
is_cron (other t) = false

abbrev pub is_failed : ScheduledTaskRunStatus → Bool
is_failed failed = true
is_failed _ = false

-- The bool that a lookup or an admission returns with its row is an option here.
pub record ScheduledTaskStore (W : Type 0) : Type 0 where
  pub list_scheduled_tasks : Action W (List ScheduledTask)
  pub list_enabled_scheduled_tasks : Action W (List ScheduledTask)
  pub get_scheduled_task_by_id : Text → Action W (Option ScheduledTask)
  pub get_scheduled_task_by_name : Text → Action W (Option ScheduledTask)
  pub create_scheduled_task : ScheduledTask → Action W (Unit {0})
  pub update_scheduled_task : ScheduledTask → Action W (Unit {0})
  pub delete_scheduled_task : Text → Action W (Unit {0})
  pub get_latest_scheduled_task_run_for_task : Text → Action W (Option ScheduledTaskRun)
  pub admit_scheduled_task_run : ScheduledTaskRun → Action W (Option ScheduledTaskRun)
  pub update_scheduled_task_run : ScheduledTaskRun → Action W (Unit {0})
  pub list_scheduled_task_runs_for_due_time : Text → Time → Action W (List ScheduledTaskRun)
  pub create_scheduled_task_delivery : ScheduledTaskDelivery → Action W (Unit {0})
  pub update_scheduled_task_delivery : ScheduledTaskDelivery → Action W (Unit {0})
