-- ===== src/Scheduler/Laws.antt =====
-- The scheduler on the SQLite store, with other calls that leave the runs and the tasks alone.
use claw.Prelude.{ℕ, inl, inr, Option, none, some, Bool-cases}
use claw.Prelude.Text.{Text, is_empty}
use claw.Errors.{Result, ok, err}
use claw.Types.{Time, CodexTurnInput}
use claw.TaskBranch.{Unicode}
use claw.ScheduledTasks.{ScheduledTask, ScheduledTaskRun, ScheduledTaskDelivery}
use claw.Schedule.{resolve_scheduled_task_report_target}
use claw.Store.{Store}
use claw.Store.Scheduled.Updates.{create_scheduled_task_delivery}
use claw.Store.Scheduled.Admission.{IsThrough}
use claw.Store.Scheduled.Placed.{Keeps}
use claw.Store.Scheduled.Deliveries.{
  Keeps-refl, Keeps-trans, create_delivery-Keeps, update_delivery-Keeps,
}
use claw.Scheduler.{Dependencies}
use claw.Scheduler.Delivery.{
  new_delivery, skipped_delivery, sent_delivery, record_sent, send_created, format_scheduled_report,
  skip, deliver_run_result,
}
use claw.Scheduler.Execution.{cleaned}
use claw.Scheduler.Retries.{on_sqlite}

-- The calls besides the store leave the runs and the tasks alone.
pub record IsApart (d : Dependencies Store) : Type 0 where
  pub reads : (s : Store) → Keeps s (d.now s).1
  pub names_run : (s : Store) → Keeps s (d.new_run_id s).1
  pub names_delivery : (s : Store) → Keeps s (d.new_delivery_id s).1
  pub runs : (id : Text) (input : CodexTurnInput) (s : Store) → Keeps s (d.run_turn id input s).1
  pub sends : (target text : Text) (s : Store) → Keeps s (d.send_scheduled_report target text s).1
  pub prepares : (id : Text) (s : Store) → Keeps s (d.prepare_temporary_worktree id s).1
  pub cleans : (c : ℕ) (s : Store) → Keeps s (d.run_cleanup c s).1

module _ (u : Unicode) (base : Dependencies Store) (apart : IsApart base) where
  pub cleaned-Keeps :
      (cleanup : Option ℕ) (s : Store) → Keeps s (cleaned (on_sqlite u base) cleanup s).1
  cleaned-Keeps none s = Keeps-refl s
  cleaned-Keeps (some c) s = apart.cleans c s

  record_sent-Keeps :
      (delivery : ScheduledTaskDelivery) (r : Result Text × Store)
      → IsThrough r.1
      → Keeps r.1 (record_sent (on_sqlite u base) delivery r)
  record_sent-Keeps delivery (sent, s) h =
      let (at, t) = base.now s in
      let k = apart.reads s in
      Keeps-trans s t _ k (update_delivery-Keeps (sent_delivery at delivery sent) t (k.through h))

  send_created-Keeps :
      (task : ScheduledTask) (run : ScheduledTaskRun) (delivery : ScheduledTaskDelivery)
      (r : Result (Unit {0}) × Store)
      → IsThrough r.1
      → Keeps r.1 (send_created (on_sqlite u base) task run delivery r)
  send_created-Keeps task run delivery (err e, s) h = Keeps-refl s
  send_created-Keeps task run delivery (ok x, s) h =
      let text = format_scheduled_report (on_sqlite u base) task run in
      let k = apart.sends delivery.report_target text s in
      Keeps-trans s _ _ k (
        record_sent-Keeps delivery (base.send_scheduled_report delivery.report_target text s)
          (k.through h))

  skip-Keeps :
      (delivery : ScheduledTaskDelivery) (r : Time × Store)
      → IsThrough r.1
      → Keeps r.1 (skip (on_sqlite u base) delivery r)
  skip-Keeps delivery (at, s) h = create_delivery-Keeps (skipped_delivery at delivery) s h

  -- The delivery of a report leaves the runs alone.
  pub deliver-Keeps :
      (task : ScheduledTask) (run : ScheduledTaskRun) (s : Store)
      → IsThrough s
      → Keeps s (deliver_run_result (on_sqlite u base) task run s)
  unfolding deliver_run_result
  deliver-Keeps task run s h =
      let target = resolve_scheduled_task_report_target task base.default_report_target in
      let (id, s1) = base.new_delivery_id s in
      let k = apart.names_delivery s in
      let delivery = new_delivery id run.scheduled_run_id target in
      elim (Bool-cases (is_empty target)) [
        | inl e ↦ rw e (
            let j = apart.reads s1 in
            Keeps-trans s s1 _ k
              (Keeps-trans s1 _ _ j (skip-Keeps delivery (base.now s1) (j.through (k.through h)))))
        | inr e ↦ rw e (
            let j = create_delivery-Keeps delivery s1 (k.through h) in
            Keeps-trans s s1 _ k (
              Keeps-trans s1 _ _ j (
                send_created-Keeps task run delivery (create_scheduled_task_delivery delivery s1)
                  (j.through (k.through h)))))
      ]
