-- ===== src/Scheduler/Delivery.antt =====
-- internal/app/scheduled_task_service.go: the report of a run, deliverRunResult.
use claw.Prelude.{none, some, [], ◌∷◌, ◌++◌, if◌then◌else◌}
use claw.Prelude.Text.{Text, codes, is_empty, trim_space}
use claw.Errors.{error_text, Result, ok, err}
use claw.Types.{Time}
use claw.ScheduledTasks.{
  ScheduledTask, ScheduledTaskRun, ScheduledTaskDelivery, pending, succeeded, failed, skipped,
}
use claw.Schedule.{resolve_scheduled_task_report_target}
use claw.Scheduler.{Dependencies}

-- What is left of a call whose result only the log gets.
abbrev pub logged {ℓ} : {A : Type ℓ} {W : Type 0} → Result A × W → W
logged (r, w) = w

abbrev pub new_delivery : Text → Text → Text → ScheduledTaskDelivery
new_delivery id run_id report_target = record {
  scheduled_delivery_id = id;
  scheduled_run_id = run_id;
  report_target = report_target;
  discord_message_id = [];
  status = pending;
  delivered_at = none;
  error_code = [];
  error_message = [];
  created_at = 0;
  updated_at = 0;
}

abbrev pub skipped_delivery : Time → ScheduledTaskDelivery → ScheduledTaskDelivery
skipped_delivery at delivery = record delivery {
  status = skipped;
  delivered_at = some at;
  error_code = codes "missing_report_target";
  error_message = codes "scheduled task does not resolve to a report target";
}

-- What the sender says becomes the end of the delivery.
abbrev pub sent_delivery : Time → ScheduledTaskDelivery → Result Text → ScheduledTaskDelivery
sent_delivery at delivery (err e) = record delivery {
  delivered_at = some at;
  updated_at = at;
  status = failed;
  error_code = codes "discord_delivery_failed";
  error_message = error_text e;
}
sent_delivery at delivery (ok message_id) = record delivery {
  delivered_at = some at;
  updated_at = at;
  status = succeeded;
  discord_message_id = message_id;
}

module _ {W : Type 0} (d : Dependencies W) where
  unfoldable pub format_scheduled_report : ScheduledTask → ScheduledTaskRun → Text
  format_scheduled_report task run =
      codes "Scheduled task `"
      ++ (task.name
          ++ (codes "` ran at `"
              ++ (d.format_rfc3339 run.scheduled_for
                  ++ (codes "`." ++ (10 ∷ 10 ∷ trim_space run.response_text)))))

  abbrev pub record_sent : ScheduledTaskDelivery → Result Text × W → W
  record_sent delivery (sent, w) =
      let (at, w1) = d.now w in
      logged (d.store.update_scheduled_task_delivery (sent_delivery at delivery sent) w1)

  abbrev pub send_created :
      ScheduledTask → ScheduledTaskRun → ScheduledTaskDelivery → Result (Unit {0}) × W → W
  send_created task run delivery (err e, w) = w
  send_created task run delivery (ok x, w) =
      record_sent delivery
        (d.send_scheduled_report delivery.report_target (format_scheduled_report task run) w)

  abbrev pub skip : ScheduledTaskDelivery → Time × W → W
  skip delivery (at, w) =
      logged (d.store.create_scheduled_task_delivery (skipped_delivery at delivery) w)

  unfoldable pub deliver_run_result : ScheduledTask → ScheduledTaskRun → W → W
  deliver_run_result task run w =
      let report_target = resolve_scheduled_task_report_target task d.default_report_target in
      let (id, w1) = d.new_delivery_id w in
      let delivery = new_delivery id run.scheduled_run_id report_target in
      if is_empty report_target
      then skip delivery (d.now w1)
      else send_created task run delivery (d.store.create_scheduled_task_delivery delivery w1)
