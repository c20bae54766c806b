-- ===== src/Message/Stop/Effects.antt =====
-- internal/app/message_service_impl.go: what a stop does to the queue, the executions and the cleanups.
use claw.Prelude.{
  ℕ, ◌≡◌, refl, sym, ap, ◌∙◌, inl, inr, Bool, true, false, ◌||◌, ◌==◌, ==_iff, Option, none, some,
  List, [], ◌∷◌, map, arith, if◌then◌else◌, length, suc, Bool-cases,
}
use claw.Prelude.Text.{Text, text_eq, text_eq_iff, text_eq_refl}
use claw.Errors.{Error, is_error, canceled, ok, err}
use claw.Queue.{
  QueuedWork, QueueEntry, QueueCoordinator, assign, drop_queued, drop_entry, on_drops, complete,
  complete_entry, complete_waiting,
}
use claw.Message.{Dependencies, PreparedMessage}
use claw.Message.Replies.{stopped_message}
use claw.Message.Execute.{run_cleanup}
use claw.Message.Handle.{
  Service, Closure, queued_work, run_closures, run_closure, has_id, unregister, stopped_or,
  complete_execution, mark_stopped, finish_message, stop_in_flight, cleaned,
}
use claw.Message.Stop.{stop_report, stop_execution}

abbrev waiting_in : Option (QueueEntry Closure) → List (QueuedWork Closure)
waiting_in none = []
waiting_in (some entry) = entry.waiting

abbrev running_in : Option (QueueEntry Closure) → Bool
running_in none = false
running_in (some entry) = entry.running

abbrev has_some : Option ℕ → Bool
has_some none = false
has_some (some _) = true

-- What dropping the queue of a key gives and leaves.
abbrev Drops :
    Text
    → List PreparedMessage
    → QueueCoordinator Closure
    → ℕ × List Closure × QueueCoordinator Closure
    → Type 0
Drops key ps c r =
    (c' : QueueCoordinator Closure) × (r ≡ (length ps, on_drops (map queued_work ps), c'))
    × ((j : Text) → waiting_in (c' j) ≡ (if text_eq key j then [] else waiting_in (c j)))
    × ((j : Text) → running_in (c' j) ≡ running_in (c j))

length-map_queued : (ps : List PreparedMessage) → length (map queued_work ps) ≡ length ps
length-map_queued [] = refl
length-map_queued (p ∷ ps) = ap suc (length-map_queued ps)

drop_entry-map :
    (key : Text) (ps : List PreparedMessage) (c : QueueCoordinator Closure)
    (o : Option (QueueEntry Closure))
    → c key ≡ o
    → waiting_in o ≡ map queued_work ps
    → Drops key ps c (drop_entry key c o)
unfolding drop_entry on_drops assign
drop_entry-map key [] c none e h = (
  c,
  refl,
  λ j. elim (Bool-cases (text_eq key j)) [
    | inl same ↦ rw (same, sym ((text_eq_iff key j).0 same), e) refl
    | inr other ↦ rw other refl
  ],
  λ j. refl,
)
drop_entry-map key (p ∷ ps) c none e h = absurd (ground arith)
drop_entry-map key ps c (some entry) e h = (
  assign key (some (record entry { waiting = [] })) c,
  rw (h, length-map_queued ps) refl,
  λ j. elim (Bool-cases (text_eq key j)) [ inl same ↦ rw same refl | inr other ↦ rw other refl ],
  λ j. elim (Bool-cases (text_eq key j)) [
    | inl same ↦ rw (same, sym ((text_eq_iff key j).0 same), e) refl
    | inr other ↦ rw other refl
  ],
)

drop_queued-map :
    (key : Text) (ps : List PreparedMessage) (c : QueueCoordinator Closure)
    → waiting_in (c key) ≡ map queued_work ps
    → Drops key ps c (drop_queued key c)
unfolding drop_queued
drop_queued-map key ps c h = drop_entry-map key ps c (c key) refl h

id_refl : (id : ℕ) → (id == id) ≡ true
id_refl id = (==_iff id id).1 refl

module _ {W : Type 0} (d : Dependencies W) where
  -- The cleanups of the messages, in order.
  abbrev pub run_cleanups : List PreparedMessage → W → W
  run_cleanups [] w = w
  run_cleanups (p ∷ ps) w = run_cleanups ps (run_cleanup d p.cleanup w)

  -- What a stop leaves of a service, given the messages that wait for the key.
  abbrev pub Stopped : Text → List PreparedMessage → Service W → Service W → Type 0
  Stopped key ps s t =
      ((j : Text)
        → waiting_in (t.coordinator j)
          ≡ (if text_eq key j then [] else waiting_in (s.coordinator j)))
      × ((j : Text) → running_in (t.coordinator j) ≡ running_in (s.coordinator j))
      × (t.world ≡ run_cleanups ps s.world)
      × (t.in_flight ≡ s.in_flight)
      × ((id : ℕ) → t.stopped id ≡ (has_id id (s.in_flight key) || s.stopped id))

  run_closures-map :
      (ps : List PreparedMessage) (s : Service W)
      → run_closures d (on_drops (map queued_work ps)) s
        ≡ record s { world = run_cleanups ps s.world }
  unfolding run_closures run_closure on_drops
  run_closures-map [] s = refl
  run_closures-map (p ∷ ps) s = run_closures-map ps (cleaned d p.cleanup s)

  abbrev Marks : Option ℕ → Service W → Bool × Service W → Type 0
  Marks o s r =
      (r.0 ≡ has_some o)
      × (r.1.coordinator ≡ s.coordinator)
      × (r.1.world ≡ s.world)
      × (r.1.in_flight ≡ s.in_flight)
      × ((id : ℕ) → r.1.stopped id ≡ (has_id id o || s.stopped id))

  mark_stopped-Marks : (o : Option ℕ) (s : Service W) → Marks o s (mark_stopped d o s)
  mark_stopped-Marks none s = (refl, refl, refl, refl, λ id. refl)
  mark_stopped-Marks (some n) s = (refl, refl, refl, refl, λ id. ground arith)

  -- Let what waits under a key be messages that the service queued.
  -- A stop of the key answers with what it found there; it empties the queue of that key and runs the
  -- cleanups of the messages that waited, in order, and marks the execution in flight as stopped; the
  -- other keys and executions stay as they are.
  pub stop_execution_lem :
      (key : Text) (ps : List PreparedMessage) (s : Service W)
      → waiting_in (s.coordinator key) ≡ map queued_work ps
      → ((stop_execution d key s).0 ≡ ok (stop_report (has_some (s.in_flight key)) (length ps)))
        × Stopped key ps s (stop_execution d key s).1
  unfolding stop_execution drop_queued drop_entry stop_in_flight
  stop_execution_lem key ps s h = by_drop (drop_queued-map key ps s.coordinator h)
    where
      by_drop :
          Drops key ps s.coordinator (drop_queued key s.coordinator)
          → ((stop_execution d key s).0 ≡ ok (stop_report (has_some (s.in_flight key)) (length ps)))
            × Stopped key ps s (stop_execution d key s).1
      by_drop (c, e, empty, same) =
          rw (e, stop_execution, run_closures-map ps (record s { coordinator = c }))
            (let (a, b, w, f, m) =
                mark_stopped-Marks (s.in_flight key)
                  (record s { coordinator = c; world = run_cleanups ps s.world }) in
              (
                ap (λ x. ok (stop_report x (length ps))) a,
                (
                  (λ j. ap (λ q. waiting_in (q j)) b ∙ empty j),
                  (λ j. ap (λ q. running_in (q j)) b ∙ same j),
                  w,
                  f,
                  m,
                ),
              ))

  complete-empty :
      (key : Text) (c : QueueCoordinator Closure) (o : Option (QueueEntry Closure))
      → c key ≡ o
      → waiting_in o ≡ []
      → ((complete_entry key c o).0 ≡ none) × ((complete_entry key c o).1 key ≡ none)
  unfolding complete_entry complete_waiting assign
  complete-empty key c none e h = (refl, e)
  complete-empty key c (some entry) e h = rw (h, complete_entry, text_eq_refl key) (refl, refl)

  finish_message-stopped :
      (key : Text) (id : ℕ) (p : PreparedMessage) (e : Error) (t : Service W)
      → t.in_flight key ≡ some id
      → waiting_in (t.coordinator key) ≡ []
      → t.stopped id ≡ true
      → is_error e canceled ≡ true
      → ((finish_message d key id p (err e) t).0 ≡ (ok (stopped_message p.reply_to_id), none))
        × ((finish_message d key id p (err e) t).1.coordinator key ≡ none)
        × ((finish_message d key id p (err e) t).1.in_flight key ≡ none)
  unfolding finish_message unregister stopped_or complete_execution complete
  finish_message-stopped key id p e t flying waits marked cancel =
      let (a, b) = complete-empty key t.coordinator (t.coordinator key) refl waits in
      rw (flying, marked, cancel, id_refl id, text_eq_refl key)
        (ap (λ x. (ok (stopped_message p.reply_to_id), x)) a, b, refl)

  -- Let what waits under a key be messages that the service queued, and an execution be in flight there.
  -- When the execution of the key is stopped and then ends as canceled, its reply is that it was stopped,
  -- nothing that waited runs, and the key is free.
  pub stop_execution-finish :
      (key : Text) (id : ℕ) (p : PreparedMessage) (ps : List PreparedMessage) (e : Error)
      (s : Service W)
      → s.in_flight key ≡ some id
      → waiting_in (s.coordinator key) ≡ map queued_work ps
      → is_error e canceled ≡ true
      → ((finish_message d key id p (err e) (stop_execution d key s).1).0
          ≡ (ok (stopped_message p.reply_to_id), none))
        × ((finish_message d key id p (err e) (stop_execution d key s).1).1.coordinator key ≡ none)
        × ((finish_message d key id p (err e) (stop_execution d key s).1).1.in_flight key ≡ none)
  stop_execution-finish key id p ps e s flying waits cancel =
      let (_, (empty, same, _, kept, marked)) = stop_execution_lem key ps s waits in
      finish_message-stopped key id p e (stop_execution d key s).1 (ap (λ f. f key) kept ∙ flying)
        (empty key ∙ rw (text_eq_refl key) refl) (marked id ∙ rw (flying, id_refl id) refl) cancel
