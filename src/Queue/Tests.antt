-- ===== src/Queue/Tests.antt =====
-- Runs of the coordinator, and the theorems at concrete states.
use claw.Prelude.{ℕ, suc, ◌≤◌, ◌≡◌, refl, some, [], ◌∷◌, arith, length}
use claw.Prelude.Text.{Text, text_eq}
use claw.Errors.{ok}
use claw.Queue.{
  QueuedWork, QueueCoordinator, new_queue_coordinator, assign, admit, complete, drop_queued,
  runs_now, queued_at, max_waiting_messages_per_key,
}
use claw.Queue.Refines.{
  view, IsValid, Admits, Completes, Drops, seen, seen2, new-IsValid, admit-Refines,
  complete-Refines, drop_queued-Refines,
}
use claw.Queue.Protocol.{
  System, new_system, arrive, finish_one, Reach, init, next, arrives, finishes, works, TracksAt,
  amend, Reach-serial,
}

abbrev key : Text
key = 107 ∷ []

abbrev work : ℕ → QueuedWork ℕ
work n = record { run = n; on_drop = some n }

abbrev empty : QueueCoordinator ℕ
empty = new_queue_coordinator

abbrev busy : QueueCoordinator ℕ
busy = (admit key (work 1) (admit key (work 0) empty).1).1

busy-IsValid : IsValid busy
busy-IsValid = (admit-Refines key (work 1) _ (admit-Refines key (work 0) empty (new-IsValid ℕ)).1).1

admit_runs :
    ((admit key (work 0) empty).0 ≡ ok runs_now)
    × ((admit key (work 2) busy).0 ≡ ok (queued_at 2))
    × ((complete key busy).0 ≡ some 1)
    × ((drop_queued key busy).1 ≡ 1 ∷ [])
unfolding admit complete drop_queued assign text_eq new_queue_coordinator
admit_runs = (refl, refl, refl, refl)

admit-Refines_example :
    Admits key (work 2) (view busy) (seen (admit key (work 2) busy))
    × IsValid (admit key (work 2) busy).1
admit-Refines_example = admit-Refines key (work 2) busy busy-IsValid

complete-Refines_example :
    Completes key (view busy) (seen (complete key busy)) × IsValid (complete key busy).1
complete-Refines_example = complete-Refines key busy busy-IsValid

drop_queued-Refines_example :
    Drops key (view busy) (seen2 (drop_queued key busy)) × IsValid (drop_queued key busy).2
drop_queued-Refines_example = drop_queued-Refines key busy busy-IsValid

abbrev two_arrived : System ℕ
two_arrived = arrive key (work 1) (arrive key (work 0) (new_system ℕ))

two_arrived-Reach : Reach (finish_one key two_arrived)
unfolding arrive admit assign amend text_eq new_queue_coordinator
two_arrived-Reach =
    next (next (next init (arrives _ key (work 0))) (arrives _ key (work 1))) (finishes _ key one)
  where
    one : suc 0 ≤ two_arrived.executing key
    one = omega arith

Reach-serial_example :
    TracksAt (finish_one key two_arrived) key
    × (length (works (view (finish_one key two_arrived).coordinator key))
        ≤ max_waiting_messages_per_key)
Reach-serial_example = Reach-serial (finish_one key two_arrived) key two_arrived-Reach
