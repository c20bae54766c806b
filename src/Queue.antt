-- ===== src/Queue.antt =====
-- internal/thread/queue.go: the coordinator of the queues, one for each execution key.
-- The mutex makes each method one step, so a method is a function of the state. The closures are
-- values of a type `R`; a method returns those that it calls, in order.
pub mod Refines
pub mod Protocol
mod Tests
use claw.Prelude.{
  ℕ, ◌≡◌, Bool, true, false, not, Option, none, some, List, [], ◌∷◌, ◌++◌, ltb, leb, if◌then◌else◌,
  length,
}
use claw.Prelude.Text.{Text, text_eq}
use claw.Errors.{Error, Result, ok, err, sentinel, execution_queue_full}

abbrev pub max_waiting_messages_per_key : ℕ
max_waiting_messages_per_key = 5

-- app.QueueAdmission and app.QueueSnapshot
pub record QueueAdmission : Type 0 where
  pub execute_now : Bool
  pub queued : Bool
  pub position : ℕ

pub record QueueSnapshot : Type 0 where
  pub in_flight : Bool
  pub queued : ℕ

-- `on_drop` may be nil.
pub record QueuedWork (R : Type 0) : Type 0 where
  pub run : R
  pub on_drop : Option R

pub record QueueEntry (R : Type 0) : Type 0 where
  pub running : Bool
  pub waiting : List (QueuedWork R)

-- The map of entries.
abbrev pub QueueCoordinator : Type 0 → Type 0
QueueCoordinator R = Text → Option (QueueEntry R)

abbrev pub runs_now : QueueAdmission
runs_now = record { execute_now = true; queued = false; position = 0 }

abbrev pub queued_at : ℕ → QueueAdmission
queued_at n = record { execute_now = false; queued = true; position = n }

module _ {R : Type 0} where
  unfoldable pub new_queue_coordinator : QueueCoordinator R
  new_queue_coordinator key = none

  -- `entries[key] = entry`, or `delete(entries, key)`
  unfoldable pub assign : Text → Option (QueueEntry R) → QueueCoordinator R → QueueCoordinator R
  assign key entry c j = if text_eq key j then entry else c j

  -- The part of `Admit` that is behind the look-up.
  unfoldable pub admit_entry :
      Text
      → QueuedWork R
      → QueueCoordinator R
      → Option (QueueEntry R)
      → Result QueueAdmission × QueueCoordinator R
  admit_entry key work c none =
      (ok runs_now, assign key (some (record { running = true; waiting = [] })) c)
  admit_entry key work c (some entry) =
      if not entry.running
      then (ok runs_now, assign key (some (record { running = true; waiting = [] })) c)
      else if leb max_waiting_messages_per_key (length entry.waiting)
      then (err (sentinel execution_queue_full), c)
      else (
        ok (queued_at (length (entry.waiting ++ work ∷ []))),
        assign key (some (record entry { waiting = entry.waiting ++ work ∷ [] })) c,
      )

  unfoldable pub admit :
      Text → QueuedWork R → QueueCoordinator R → Result QueueAdmission × QueueCoordinator R
  unfolding admit_entry
  admit key work c = admit_entry key work c (c key)

  unfoldable pub complete_waiting :
      Text → QueueCoordinator R → QueueEntry R → List (QueuedWork R) → Option R × QueueCoordinator R
  complete_waiting key c entry [] = (none, assign key none c)
  complete_waiting key c entry (next ∷ rest) =
      (some next.run, assign key (some (record entry { waiting = rest })) c)

  unfoldable pub complete_entry :
      Text → QueueCoordinator R → Option (QueueEntry R) → Option R × QueueCoordinator R
  unfolding complete_waiting
  complete_entry key c none = (none, c)
  complete_entry key c (some entry) = complete_waiting key c entry entry.waiting

  -- The closure to run next, if there is one.
  unfoldable pub complete : Text → QueueCoordinator R → Option R × QueueCoordinator R
  unfolding complete_entry
  complete key c = complete_entry key c (c key)

  unfoldable pub snapshot : Text → QueueCoordinator R → QueueSnapshot
  snapshot key c = elim (c key) [
    | none ↦ record { in_flight = false; queued = 0 }
    | some entry ↦ record { in_flight = entry.running; queued = length entry.waiting }
  ]

  -- The loop of `DropQueued`: the closures that it calls.
  unfoldable pub on_drops : List (QueuedWork R) → List R
  on_drops [] = []
  on_drops (w ∷ ws) = elim w.on_drop [ none ↦ on_drops ws | some f ↦ f ∷ on_drops ws ]

  unfoldable pub drop_entry :
      Text → QueueCoordinator R → Option (QueueEntry R) → ℕ × List R × QueueCoordinator R
  unfolding on_drops
  drop_entry key c none = (0, [], c)
  drop_entry key c (some entry) = (
    length entry.waiting,
    on_drops entry.waiting,
    assign key (some (record entry { waiting = [] })) c,
  )

  -- The number of works dropped, and the closures called.
  unfoldable pub drop_queued : Text → QueueCoordinator R → ℕ × List R × QueueCoordinator R
  unfolding drop_entry
  drop_queued key c = drop_entry key c (c key)
