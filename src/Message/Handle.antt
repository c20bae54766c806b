-- ===== src/Message/Handle.antt =====
-- internal/app/message_service_impl.go: the service and its queue.
-- A method that waits for a turn is in two parts, one before the turn and one behind it, so that other
-- calls come between. An execution in flight is known by a number, and `stopped` is what its pointer
-- leads to; that it is stopped is also what cancels its context.
pub mod Begins
use claw.Prelude.{
  ℕ, suc, Bool, true, false, not, ◌&&◌, ◌||◌, Option, none, some, List, [], ◌∷◌, ◌++◌, ◌==◌,
  if◌then◌else◌,
}
use claw.Prelude.Text.{Text, codes, text_eq, is_empty, decimal}
use claw.Errors.{
  Error, is_error, canceled, deadline_exceeded, no_active_task, execution_queue_full, wrap, Result,
  ok, err, Action, ◌>>=◌, or_wrap, continue_with, succeed, fail, attempt,
}
use claw.Types.{Time, Mode, journal, thread, MessageRequest, MessageResponse, DailySession, mode_eq}
use claw.Queue.{QueueAdmission, QueuedWork, QueueCoordinator, admit, complete, drop_queued}
use claw.Policy.{resolve_message_key}
use claw.Message.{Dependencies, PreparedMessage, Preparation, handled, prepared, prepare_message}
use claw.Message.Replies.{
  reply_to, stop_command_response, queue_full_message, queued_internal_error_message,
  stopped_message, no_active_task_message, queued_acknowledgement_message,
  queued_acknowledgement_message_for_task, build_execution_key,
}
use claw.Message.Execute.{execute_prepared_message, run_cleanup}

-- The closures that the service hands to the coordinator.
pub data Closure : Type 0 where
  process : PreparedMessage → Closure
  clean : Option ℕ → Closure

pub record Service (W : Type 0) : Type 0 where
  pub coordinator : QueueCoordinator Closure
  pub in_flight : Text → Option ℕ
  pub stopped : ℕ → Bool
  pub next : ℕ
  pub world : W

-- A handler answers at once, or its execution starts: the execution key, and the execution.
pub data Started : Type 0 where
  answered : Result MessageResponse → Started
  started : Text → ℕ → PreparedMessage → Started

abbrev pub put_key {ℓ} : {A : Type ℓ} → Text → A → (Text → A) → Text → A
put_key key a f j = if text_eq key j then a else f j

abbrev pub put_id {ℓ} : {A : Type ℓ} → ℕ → A → (ℕ → A) → ℕ → A
put_id id a f j = if id == j then a else f j

abbrev pub has_id : ℕ → Option ℕ → Bool
has_id id none = false
has_id id (some j) = id == j

-- The work that is queued does not report progress.
abbrev pub queued_form : PreparedMessage → PreparedMessage
queued_form p = record p { input = record p.input { progress_sink = none } }

abbrev pub queued_work : PreparedMessage → QueuedWork Closure
queued_work p = record { run = process (queued_form p); on_drop = some (clean p.cleanup) }

unfoldable pub acknowledgement : Text → PreparedMessage → ℕ → MessageResponse
acknowledgement message_id p position = record {
  text =
      if is_empty p.task_override_name
      then queued_acknowledgement_message position
      else queued_acknowledgement_message_for_task p.task_override_name position;
  reply_to_id = message_id;
  ephemeral = false;
  ignore = false;
  deferred = true;
}

abbrev pub ignored : MessageResponse
ignored = record { text = []; reply_to_id = []; ephemeral = false; ignore = true; deferred = false }

unfoldable pub is_lifecycle_context_error : Error → Bool
is_lifecycle_context_error e = is_error e canceled || is_error e deadline_exceeded

-- The reply of a stopped turn that was canceled.
unfoldable pub stopped_or : PreparedMessage → Bool → Result MessageResponse → Result MessageResponse
stopped_or p stopped (ok response) = ok response
stopped_or p stopped (err e) =
    if stopped && is_error e canceled then ok (stopped_message p.reply_to_id) else err e

-- What is delivered for a queued message; nothing at a shutdown.
unfoldable pub queued_reply :
    PreparedMessage → Bool → Result MessageResponse → Option MessageResponse
queued_reply p stopped (ok response) = some response
queued_reply p stopped (err e) =
    if stopped && is_error e canceled
    then some (stopped_message p.reply_to_id)
    else if is_lifecycle_context_error e
    then none
    else some (reply_to p.reply_to_id queued_internal_error_message)

module _ {W : Type 0} (d : Dependencies W) where
  unfoldable pub register_in_flight : Text → Service W → ℕ × Service W
  register_in_flight key s = (
    s.next,
    record s {
      in_flight = put_key key (some s.next) s.in_flight;
      stopped = put_id s.next false s.stopped;
      next = suc s.next;
    },
  )

  unfoldable pub unregister : Text → ℕ → Service W → Bool × Service W
  unregister key id s = (
    s.stopped id,
    if has_id id (s.in_flight key)
        then record s { in_flight = put_key key none s.in_flight }
        else s,
  )

  abbrev pub mark_stopped : Option ℕ → Service W → Bool × Service W
  mark_stopped none s = (false, s)
  mark_stopped (some id) s = (true, record s { stopped = put_id id true s.stopped })

  unfoldable pub stop_in_flight : Text → Service W → Bool × Service W
  stop_in_flight key s = mark_stopped (s.in_flight key) s

  abbrev pub cleaned : Option ℕ → Service W → Service W
  cleaned cleanup s = record s { world = run_cleanup d cleanup s.world }

  abbrev pub start : Text → PreparedMessage → ℕ × Service W → Started × Service W
  start key p (id, s) = (started key id p, s)

  abbrev pub after_admit :
      MessageRequest
      → Text
      → PreparedMessage
      → Service W
      → Result QueueAdmission × QueueCoordinator Closure
      → Started × Service W
  after_admit request key p s (err e, c) = (
    answered (
        if is_error e execution_queue_full
        then ok (reply_to request.message_id queue_full_message)
        else err (wrap (codes "admit queued execution") e)),
    cleaned request.cleanup (record s { coordinator = c }),
  )
  after_admit request key p s (ok a, c) =
      if a.queued
      then (
        answered (ok (acknowledgement request.message_id p a.position)),
        record s { coordinator = c },
      )
      else start key p (register_in_flight key (record s { coordinator = c }))

  abbrev pub admit_message : MessageRequest → PreparedMessage → Service W → Started × Service W
  admit_message request p s =
      let key = build_execution_key d.mode p.logical_key in
      after_admit request key p s (admit key (queued_work p) s.coordinator)

  abbrev pub after_prepare :
      MessageRequest → Service W → Result Preparation × W → Started × Service W
  after_prepare request s (err e, w) =
      (answered (err e), cleaned request.cleanup (record s { world = w }))
  after_prepare request s (ok (handled response), w) =
      (answered (ok response), cleaned request.cleanup (record s { world = w }))
  after_prepare request s (ok (prepared p), w) = admit_message request p (record s { world = w })

  -- `HandleMessage` up to the execution.
  unfoldable pub begin_message : MessageRequest → Option ℕ → Service W → Started × Service W
  unfolding register_in_flight acknowledgement
  begin_message request sink s =
      if request.mentioned
      then after_prepare request s (prepare_message d request sink s.world)
      else (answered (ok ignored), cleaned request.cleanup s)

  abbrev executed : Service W → Result MessageResponse × W → Result MessageResponse × Service W
  executed s (r, w) = (r, record s { world = w })

  unfoldable pub run_prepared : PreparedMessage → Action (Service W) MessageResponse
  run_prepared p s = executed s (execute_prepared_message d p s.world)

  abbrev pub completed :
      Service W → Option Closure × QueueCoordinator Closure → Option Closure × Service W
  completed s (next, c) = (next, record s { coordinator = c })

  -- `completeExecution`, and each turn of the loop of `drainQueue`: the closure to run next.
  unfoldable pub complete_execution : Text → Service W → Option Closure × Service W
  complete_execution key s = completed s (complete key s.coordinator)

  abbrev answer_stopped :
      PreparedMessage
      → Result MessageResponse
      → Bool × Service W
      → Result MessageResponse × Service W
  answer_stopped p r (stopped, s) = (stopped_or p stopped r, s)

  abbrev then_complete :
      Text
      → Result MessageResponse × Service W
      → (Result MessageResponse × Option Closure) × Service W
  then_complete key (r, s) = ((r, (complete_execution key s).0), (complete_execution key s).1)

  -- `HandleMessage` behind the execution, with the closure that the drain starts with.
  unfoldable pub finish_message :
      Text
      → ℕ
      → PreparedMessage
      → Result MessageResponse
      → Service W
      → (Result MessageResponse × Option Closure) × Service W
  unfolding unregister complete_execution stopped_or
  finish_message key id p r s = then_complete key (answer_stopped p r (unregister key id s))

  abbrev delivered : Option ℕ → Option MessageResponse → Service W → Service W
  delivered (some sink) (some response) s = record s {
    world = (d.deliver_reply sink response s.world).1;
  }
  delivered _ _ s = s

  abbrev deliver_stopped : PreparedMessage → Result MessageResponse → Bool × Service W → Service W
  deliver_stopped p r (stopped, s) = delivered p.sink (queued_reply p stopped r) s

  -- `processQueuedMessage` behind the execution.
  unfoldable pub finish_queued :
      Text → ℕ → PreparedMessage → Result MessageResponse → Service W → Service W
  unfolding unregister queued_reply
  finish_queued key id p r s = deliver_stopped p r (unregister key id s)

  abbrev after_run : Text → ℕ → PreparedMessage → Result MessageResponse × Service W → Service W
  after_run key id p (r, s) = finish_queued key id p r s

  abbrev run_registered : Text → PreparedMessage → ℕ × Service W → Service W
  run_registered key p (id, s) = after_run key id p (run_prepared p s)

  -- `processQueuedMessage` with nothing in between.
  unfoldable pub process_queued_message : PreparedMessage → Service W → Service W
  unfolding register_in_flight run_prepared finish_queued
  process_queued_message p s =
      let key = build_execution_key d.mode p.logical_key in
      run_registered key p (register_in_flight key s)

  unfoldable pub run_closure : Closure → Service W → Service W
  unfolding process_queued_message
  run_closure (process p) s = process_queued_message p s
  run_closure (clean cleanup) s = cleaned cleanup s

  unfoldable pub run_closures : List Closure → Service W → Service W
  unfolding run_closure
  run_closures [] s = s
  run_closures (c ∷ cs) s = run_closures cs (run_closure c s)
