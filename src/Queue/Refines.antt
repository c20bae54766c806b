-- ===== src/Queue/Refines.antt =====
-- The coordinator against its specification: for each key nothing, or a bounded FIFO queue.
use mathlib.Core.Path.{fun_ext}
use claw.Prelude.{
  ℕ, ◌+◌, ◌≤◌, ◌<◌, ◌≡◌, refl, Bool, true, false, Option, none, some, List, [], ◌∷◌, ◌++◌, ap, inl,
  inr, Bool-cases, leb, arith, length, length-append, if◌then◌else◌,
}
use claw.Prelude.Text.{Text, text_eq}
use claw.Errors.{Result, ok, err, sentinel, execution_queue_full}
use claw.Queue.{
  QueueAdmission, QueuedWork, QueueEntry, QueueCoordinator, runs_now, queued_at,
  new_queue_coordinator, assign, admit_entry, admit, complete_waiting, complete_entry, complete,
  on_drops, drop_entry, drop_queued, max_waiting_messages_per_key,
}

-- The specification's state: the works that wait, for the keys that are busy.
abbrev pub Queues : Type 0 → Type 0
Queues R = Text → Option (List (QueuedWork R))

module _ {R : Type 0} where
  abbrev pub waiting_of : Option (QueueEntry R) → Option (List (QueuedWork R))
  waiting_of none = none
  waiting_of (some e) = some e.waiting

  unfoldable pub view : QueueCoordinator R → Queues R
  view c key = waiting_of (c key)

  unfoldable pub put : Text → Option (List (QueuedWork R)) → Queues R → Queues R
  put key ws q j = if text_eq key j then ws else q j

  -- An entry in the map is running, and its queue is within the bound.
  abbrev pub IsEntry : Option (QueueEntry R) → Type 0
  IsEntry none = Unit
  IsEntry (some e) = (e.running ≡ true) × (length e.waiting ≤ max_waiting_messages_per_key)

  abbrev pub IsValid : QueueCoordinator R → Type 0
  IsValid c = (key : Text) → IsEntry (c key)

  view-assign :
      (key : Text) (e : Option (QueueEntry R)) (c : QueueCoordinator R)
      → view (assign key e c) ≡ put key (waiting_of e) (view c)
  unfolding view assign put
  view-assign key e c = fun_ext (λ j. at j (text_eq key j))
    where
      at :
          (j : Text) (b : Bool)
          → waiting_of (if b then e else c j) ≡ (if b then waiting_of e else waiting_of (c j))
      at j true = refl
      at j false = refl

  assign-IsValid :
      (key : Text) (e : Option (QueueEntry R)) (c : QueueCoordinator R)
      → IsValid c
      → IsEntry e
      → IsValid (assign key e c)
  unfolding assign
  assign-IsValid key e c v h j = at (text_eq key j)
    where
      at : (b : Bool) → IsEntry (if b then e else c j)
      at true = h
      at false = v j

  -- What `Admit` may do: start an idle key, queue behind at most four works, or refuse.
  pub data Admits (key : Text) (work : QueuedWork R) (q : Queues R)
      : Result QueueAdmission × Queues R → Type 0 where
    start :
        {r : Result QueueAdmission × Queues R}
        → q key ≡ none
        → r ≡ (ok runs_now, put key (some []) q)
        → Admits key work q r
    enqueue :
        {r : Result QueueAdmission × Queues R} (ws : List (QueuedWork R))
        → q key ≡ some ws
        → length ws < max_waiting_messages_per_key
        → r ≡ (ok (queued_at (length ws + 1)), put key (some (ws ++ work ∷ [])) q)
        → Admits key work q r
    refuse :
        {r : Result QueueAdmission × Queues R} (ws : List (QueuedWork R))
        → q key ≡ some ws
        → length ws ≡ max_waiting_messages_per_key
        → r ≡ (err (sentinel execution_queue_full), q)
        → Admits key work q r

  -- What `Complete` may do: nothing, end the key, or hand over the oldest work.
  pub data Completes (key : Text) (q : Queues R) : Option R × Queues R → Type 0 where
    idle : {r : Option R × Queues R} → q key ≡ none → r ≡ (none, q) → Completes key q r
    finish :
        {r : Option R × Queues R} → q key ≡ some [] → r ≡ (none, put key none q) → Completes key q r
    hand_over :
        {r : Option R × Queues R} (w : QueuedWork R) (ws : List (QueuedWork R))
        → q key ≡ some (w ∷ ws)
        → r ≡ (some w.run, put key (some ws) q)
        → Completes key q r

  -- What `DropQueued` may do: nothing, or clear the queue of a busy key, which stays busy.
  pub data Drops (key : Text) (q : Queues R) : ℕ × List R × Queues R → Type 0 where
    idle : {r : ℕ × List R × Queues R} → q key ≡ none → r ≡ (0, [], q) → Drops key q r
    clear :
        {r : ℕ × List R × Queues R} (ws : List (QueuedWork R))
        → q key ≡ some ws
        → r ≡ (length ws, on_drops ws, put key (some []) q)
        → Drops key q r

  abbrev pub seen {ℓ} : {A : Type ℓ} → A × QueueCoordinator R → A × Queues R
  seen (a, c) = (a, view c)

  abbrev pub seen2 {ℓ κ} : {A : Type ℓ} {B : Type κ} → A × B × QueueCoordinator R → A × B × Queues R
  seen2 (a, b, c) = (a, b, view c)

  admit_entry-Admits :
      (key : Text) (work : QueuedWork R) (c : QueueCoordinator R) (e : Option (QueueEntry R))
      → c key ≡ e
      → IsEntry e
      → Admits key work (view c) (seen (admit_entry key work c e))
  unfolding admit_entry
  admit_entry-Admits key work c none h v = start (unfold view in ap waiting_of h) (rw view-assign)
  admit_entry-Admits key work c (some e) h (run, fits) =
      rw run (elim (Bool-cases (leb max_waiting_messages_per_key (length e.waiting))) [
        | inl full ↦ rw full (refuse e.waiting (unfold view in ap waiting_of h) (ground arith) refl)
        | inr room ↦
            rw (room, view-assign, length-append)
              (enqueue e.waiting (unfold view in ap waiting_of h) (ground arith) refl)
      ])

  admit_entry-IsValid :
      (key : Text) (work : QueuedWork R) (c : QueueCoordinator R) (e : Option (QueueEntry R))
      → IsEntry e
      → IsValid c
      → IsValid (admit_entry key work c e).1
  unfolding admit_entry
  admit_entry-IsValid key work c none h v = assign-IsValid key _ c v (refl, omega arith)
  admit_entry-IsValid key work c (some e) (run, fits) v =
      rw run (elim (Bool-cases (leb max_waiting_messages_per_key (length e.waiting))) [
        | inl full ↦ rw full v
        | inr room ↦
            rw room
              (assign-IsValid key _ c v (refl, ground (arith, length-append e.waiting (work ∷ []))))
      ])

  -- From any valid state `Admit` starts an idle key at once, queues behind at most four waiting
  -- works and tells the position, or refuses with the queue-full error at five and changes
  -- nothing; the result is valid again.
  pub admit-Refines :
      (key : Text) (work : QueuedWork R) (c : QueueCoordinator R)
      → IsValid c
      → Admits key work (view c) (seen (admit key work c)) × IsValid (admit key work c).1
  unfolding admit
  admit-Refines key work c v = (
    admit_entry-Admits key work c (c key) refl (v key),
    admit_entry-IsValid key work c (c key) (v key) v,
  )

  complete_waiting-Refines :
      (key : Text) (c : QueueCoordinator R) (e : QueueEntry R) (ws : List (QueuedWork R))
      → e.waiting ≡ ws
      → view c key ≡ some ws
      → IsEntry (some e)
      → IsValid c
      → Completes key (view c) (seen (complete_waiting key c e ws))
        × IsValid (complete_waiting key c e ws).1
  unfolding complete_waiting
  complete_waiting-Refines key c e [] same h v w =
      (finish h (rw view-assign), assign-IsValid key none c w tt)
  complete_waiting-Refines key c e (next ∷ rest) same h (run, fits) w = (
    hand_over next rest h (rw view-assign),
    assign-IsValid key _ c w (run, omega (arith, ap length same)),
  )

  complete_entry-Refines :
      (key : Text) (c : QueueCoordinator R) (e : Option (QueueEntry R))
      → c key ≡ e
      → IsEntry e
      → IsValid c
      → Completes key (view c) (seen (complete_entry key c e)) × IsValid (complete_entry key c e).1
  unfolding complete_entry
  complete_entry-Refines key c none h v w = (idle (unfold view in ap waiting_of h) refl, w)
  complete_entry-Refines key c (some e) h v w =
      complete_waiting-Refines key c e e.waiting refl (unfold view in ap waiting_of h) v w

  -- `Complete` leaves an idle key alone, ends a key that has nobody waiting, and otherwise hands
  -- over the work that waits longest; the result is valid again.
  pub complete-Refines :
      (key : Text) (c : QueueCoordinator R)
      → IsValid c
      → Completes key (view c) (seen (complete key c)) × IsValid (complete key c).1
  unfolding complete
  complete-Refines key c v = complete_entry-Refines key c (c key) refl (v key) v

  drop_entry-Refines :
      (key : Text) (c : QueueCoordinator R) (e : Option (QueueEntry R))
      → c key ≡ e
      → IsEntry e
      → IsValid c
      → Drops key (view c) (seen2 (drop_entry key c e)) × IsValid (drop_entry key c e).2
  unfolding drop_entry
  drop_entry-Refines key c none h v w = (idle (unfold view in ap waiting_of h) refl, w)
  drop_entry-Refines key c (some e) h (run, fits) w = (
    clear e.waiting (unfold view in ap waiting_of h) (rw view-assign),
    assign-IsValid key _ c w (run, omega arith),
  )

  -- `DropQueued` counts and drops exactly the works that wait for the key, calls each callback
  -- that is there in the order of the queue, and leaves a busy key busy and valid.
  pub drop_queued-Refines :
      (key : Text) (c : QueueCoordinator R)
      → IsValid c
      → Drops key (view c) (seen2 (drop_queued key c)) × IsValid (drop_queued key c).2
  unfolding drop_queued
  drop_queued-Refines key c v = drop_entry-Refines key c (c key) refl (v key) v

pub new-IsValid : (R : Type 0) (key : Text) → IsEntry (new_queue_coordinator {R = R} key)
unfolding new_queue_coordinator
new-IsValid R key = tt
