-- ===== src/Store/Scheduled/Deliveries.antt =====
-- What recording deliveries does to the tables.
use claw.Prelude.{◌≡◌, ◌∙◌, refl, inl, inr, Option, none, some, first, Option-cases}
use claw.Prelude.Text.{Text, codes}
use claw.Errors.{Result, ok, err, ◌>>◌, or_wrap, wrapped}
use claw.ScheduledTasks.{ScheduledTaskDelivery}
use claw.Store.{Store, driver, query, exec, clock}
use claw.Store.Scheduled.{has_run_id}
use claw.Store.Scheduled.Updates.{
  insert_delivery, created_form, create_scheduled_task_delivery, store_delivery,
  update_scheduled_task_delivery, has_delivery_id,
}
use claw.Store.Scheduled.Admission.{IsThrough, driver-through}
use claw.Store.Scheduled.Placed.{Keeps}

pub Keeps-refl : (s : Store) → Keeps s s
Keeps-refl s = record { runs = refl; tasks = refl; through = λ h. h }

pub Keeps-trans : (s t v : Store) → Keeps s t → Keeps t v → Keeps s v
Keeps-trans s t v k l = record {
  runs = l.runs ∙ k.runs;
  tasks = l.tasks ∙ k.tasks;
  through = λ h. l.through (k.through h);
}

insert_delivery-Keeps : (x : ScheduledTaskDelivery) (s : Store) → Keeps s (insert_delivery x s).1
unfolding insert_delivery exec
insert_delivery-Keeps x s =
    elim (Option-cases
      (first (has_delivery_id x.scheduled_delivery_id) s.tables.scheduled_task_deliveries)) [
        | inr (row, e) ↦ rw (e, insert_delivery) (Keeps-refl s)
        | inl e ↦
            elim (Option-cases
              (first (has_run_id x.scheduled_run_id) s.tables.scheduled_task_runs)) [
                | inl n ↦ rw (e, insert_delivery) (rw n (Keeps-refl s))
                | inr (run, n) ↦
                    rw (e, insert_delivery)
                      (rw n (record { runs = refl; tasks = refl; through = λ h. h }))
              ]
      ]

wrapped-state : {A : Type 0} (t : Text) (r : Result A × Store) → (wrapped t r).1 ≡ r.1
wrapped-state t (ok a, s) = refl
wrapped-state t (err e, s) = refl

insert_through-Keeps :
    (t : Text) (x : ScheduledTaskDelivery) (s : Store)
    → IsThrough s
    → Keeps s (or_wrap t (driver >> insert_delivery x) s).1
insert_through-Keeps t x s h =
    rw (driver-through s h) (rw (wrapped-state t (insert_delivery x s)) (insert_delivery-Keeps x s))

pub create_delivery-Keeps :
    (x : ScheduledTaskDelivery) (s : Store)
    → IsThrough s
    → Keeps s (create_scheduled_task_delivery x s).1
unfolding create_scheduled_task_delivery clock
create_delivery-Keeps x s h =
    insert_through-Keeps (codes "create scheduled task delivery") (created_form s.now x) s h

store_delivery-Keeps :
    (x : ScheduledTaskDelivery) (row : Option ScheduledTaskDelivery) (s : Store)
    → Keeps s (store_delivery x row s).1
unfolding store_delivery exec
store_delivery-Keeps x none s = Keeps-refl s
store_delivery-Keeps x (some row) s = record { runs = refl; tasks = refl; through = λ h. h }

pub update_delivery-Keeps :
    (x : ScheduledTaskDelivery) (s : Store)
    → IsThrough s
    → Keeps s (update_scheduled_task_delivery x s).1
unfolding update_scheduled_task_delivery clock query
update_delivery-Keeps x s h = rw (driver-through s h) (store_delivery-Keeps _ _ s)
