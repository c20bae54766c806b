-- ===== src/Message/Handle/Begins.antt =====
-- internal/app/message_service_impl.go: what a message leads to, up to its execution.
use claw.Prelude.{
  ℕ, suc, ◌<◌, ◌≡◌, refl, sym, subst, ap, Bool, true, false, not, Option, none, some, [], ◌∷◌, ◌++◌,
  arith, if◌then◌else◌, length, leb, ==_iff, length-append,
}
use claw.Prelude.Text.{Text, text_eq_refl}
use claw.Errors.{execution_queue_full, sentinel, Error, Result, ok, err}
use claw.Types.{MessageRequest, MessageResponse}
use claw.Queue.{
  QueueEntry, assign, admit, admit_entry, max_waiting_messages_per_key, runs_now, queued_at,
}
use claw.Message.{Dependencies, PreparedMessage, Preparation, handled, prepared, prepare_message}
use claw.Message.Replies.{reply_to, queue_full_message, build_execution_key}
use claw.Message.Execute.{run_cleanup}
use claw.Message.Prepared.{IsFor, PreparedFor, PreparedFor-IsFor, prepare_message-PreparedFor}
use claw.Message.Handle.{
  Service, Closure, Started, answered, started, queued_work, acknowledgement, ignored,
  begin_message, register_in_flight, after_prepare, after_admit, admit_message,
}

-- The number of messages that may wait is not reached.
abbrev HasRoom : QueueEntry Closure → Type 0
HasRoom entry = length entry.waiting < max_waiting_messages_per_key

abbrev IsIdle : Option (QueueEntry Closure) → Type 0
IsIdle none = Unit
IsIdle (some entry) = entry.running ≡ false

module _ {W : Type 0} (d : Dependencies W) (request : MessageRequest) (sink : Option ℕ)
    (s : Service W) where
  abbrev prepared_world : W
  prepared_world = (prepare_message d request sink s.world).1

  abbrev preparation : Result Preparation
  preparation = (prepare_message d request sink s.world).0

  -- The message was prepared as this one.
  abbrev IsReady : PreparedMessage → Type 0
  IsReady p = (request.mentioned ≡ true) × (preparation ≡ ok (prepared p)) × IsFor d request sink p

  abbrev key_of : PreparedMessage → Text
  key_of p = build_execution_key d.mode p.logical_key

  -- What a message leads to: the queue, the executions and the cleanups behind it.
  pub data Begun : Started × Service W → Type 0 where
    -- Not for the bot.
    passed :
        (t : Service W)
        → request.mentioned ≡ false
        → t ≡ record s { world = run_cleanup d request.cleanup s.world }
        → Begun (answered (ok ignored), t)
    -- Answered while it was prepared.
    settled :
        (response : MessageResponse) (t : Service W)
        → request.mentioned ≡ true
        → preparation ≡ ok (handled response)
        → t ≡ record s { world = run_cleanup d request.cleanup prepared_world }
        → Begun (answered (ok response), t)
    -- Failed while it was prepared.
    failed :
        (e : Error) (t : Service W)
        → request.mentioned ≡ true
        → preparation ≡ err e
        → t ≡ record s { world = run_cleanup d request.cleanup prepared_world }
        → Begun (answered (err e), t)
    -- The queue of its key is full.
    full :
        (p : PreparedMessage) (entry : QueueEntry Closure) (t : Service W)
        → IsReady p
        → s.coordinator (key_of p) ≡ some entry
        → entry.running ≡ true
        → max_waiting_messages_per_key < suc (length entry.waiting)
        → t ≡ record s { world = run_cleanup d request.cleanup prepared_world }
        → Begun (answered (ok (reply_to request.message_id queue_full_message)), t)
    -- It waits at the end of the queue of its key.
    waits :
        (p : PreparedMessage) (entry : QueueEntry Closure) (t : Service W)
        → IsReady p
        → s.coordinator (key_of p) ≡ some entry
        → entry.running ≡ true
        → HasRoom entry
        → t ≡ record s {
          world = prepared_world;
          coordinator =
              assign
                (key_of p)
                (some (record entry { waiting = entry.waiting ++ queued_work p ∷ [] }))
                s.coordinator;
        }
        → Begun
            (answered (ok (acknowledgement request.message_id p (suc (length entry.waiting)))), t)
    -- It starts, and can be stopped.
    starts :
        (p : PreparedMessage) (id : ℕ) (t : Service W)
        → IsReady p
        → IsIdle (s.coordinator (key_of p))
        → t.world ≡ prepared_world
        → t.coordinator (key_of p) ≡ some (record { running = true; waiting = [] })
        → t.in_flight (key_of p) ≡ some id
        → t.stopped id ≡ false
        → Begun (started (key_of p) id p, t)

  starting :
      (p : PreparedMessage)
      → IsReady p
      → IsIdle (s.coordinator (key_of p))
      → Begun (
          after_admit d request
            (key_of p)
            p
            (record s { world = prepared_world })
            (
              ok runs_now,
              assign (key_of p) (some (record { running = true; waiting = [] })) s.coordinator,
            ))
  unfolding register_in_flight assign
  starting p own idle =
      starts p _ _ own idle refl (rw (text_eq_refl (key_of p)) refl)
        (rw (text_eq_refl (key_of p)) refl) (rw ((==_iff s.next s.next).1 refl) refl)

  waiting_one :
      (p : PreparedMessage) (entry : QueueEntry Closure)
      → suc (length entry.waiting) ≡ length (entry.waiting ++ queued_work p ∷ [])
  waiting_one p entry = omega (arith, length-append entry.waiting (queued_work p ∷ []))

  by_room :
      (p : PreparedMessage) (entry : QueueEntry Closure) (running full_up : Bool)
      → IsReady p
      → s.coordinator (key_of p) ≡ some entry
      → entry.running ≡ running
      → leb max_waiting_messages_per_key (length entry.waiting) ≡ full_up
      → Begun (
          after_admit d request
            (key_of p)
            p
            (record s { world = prepared_world })
            (if not running
              then (
                ok runs_now,
                assign (key_of p) (some (record { running = true; waiting = [] })) s.coordinator,
              )
              else if full_up
              then (err (sentinel execution_queue_full), s.coordinator)
              else (
                ok (queued_at (length (entry.waiting ++ queued_work p ∷ []))),
                assign
                    (key_of p)
                    (some (record entry { waiting = entry.waiting ++ queued_work p ∷ [] }))
                    s.coordinator,
              )))
  by_room p entry false full_up own e idle room = starting p own (rw e idle)
  by_room p entry true true own e runs room = full p entry _ own e runs (ground arith) refl
  by_room p entry true false own e runs room =
      subst
        (λ n. Begun (
          answered (ok (acknowledgement request.message_id p n)),
          record s {
            world = prepared_world;
            coordinator =
                assign (key_of p)
                  (some (record entry { waiting = entry.waiting ++ queued_work p ∷ [] }))
                  s.coordinator;
          },
        ))
        (waiting_one p entry) (waits p entry _ own e runs (ground arith) refl)

  admit-Begun :
      (p : PreparedMessage) (o : Option (QueueEntry Closure))
      → IsReady p
      → s.coordinator (key_of p) ≡ o
      → Begun (
          after_admit d request
            (key_of p)
            p
            (record s { world = prepared_world })
            (admit_entry (key_of p) (queued_work p) s.coordinator o))
  unfolding admit_entry
  admit-Begun p none own e = starting p own (rw e tt)
  admit-Begun p (some entry) own e = by_room p entry entry.running _ own e refl refl

  prepared-Begun :
      (r : Result Preparation × W)
      → request.mentioned ≡ true
      → prepare_message d request sink s.world ≡ r
      → PreparedFor d request sink s.world r
      → Begun (after_prepare d request s r)
  unfolding admit
  prepared-Begun (err e, w) m h own =
      failed e _ m (ap (λ x. x.0) h)
        (ap (λ x. record s { world = run_cleanup d request.cleanup x.1 }) (sym h))
  prepared-Begun (ok (handled response), w) m h own =
      settled response _ m (ap (λ x. x.0) h)
        (ap (λ x. record s { world = run_cleanup d request.cleanup x.1 }) (sym h))
  prepared-Begun (ok (prepared p), w) m h own =
      subst (λ x. Begun (admit_message d request p (record s { world = x }))) (ap (λ x. x.1) h)
        (admit-Begun p (s.coordinator (key_of p))
          (m, ap (λ x. x.0) h, PreparedFor-IsFor d request sink s.world w p own) refl)

  mentioned-Begun :
      (c : Bool)
      → request.mentioned ≡ c
      → Begun (
          if c
          then after_prepare d request s (prepare_message d request sink s.world)
          else (answered (ok ignored), record s { world = run_cleanup d request.cleanup s.world }))
  mentioned-Begun true h =
      prepared-Begun (prepare_message d request sink s.world) h refl
        (prepare_message-PreparedFor d request sink s.world)
  mentioned-Begun false h = passed _ h refl

  -- A message that is not for the bot is passed over. Else it is answered or fails as its preparation
  -- did, or it is prepared, and then told that the queue of its key is full, queued behind what
  -- waited at the position in the reply, or started alone under its key with an execution that is not
  -- stopped. Its cleanup is run at once when it is not queued or started, and else goes with it.
  pub begin_message-Begun : Begun (begin_message d request sink s)
  unfolding begin_message
  begin_message-Begun = mentioned-Begun request.mentioned refl
