-- ===== src/Message/Stop.antt =====
-- internal/app/message_service_impl.go: `StopCurrent`. The error of the context is an argument.
pub mod Effects
use claw.Prelude.{
  ℕ, suc, Bool, true, false, not, ◌&&◌, Option, none, some, List, [], ◌∷◌, ◌++◌, ltb, ◌==◌,
  if◌then◌else◌,
}
use claw.Prelude.Text.{Text, codes, decimal}
use claw.Errors.{
  Error, is_error, no_active_task, Result, ok, err, wrap, Action, ◌>>=◌, or_wrap, continue_with,
  succeed, fail, attempt, of_result,
}
use claw.Types.{Time, Mode, journal, thread, MessageRequest, MessageResponse, DailySession}
use claw.Queue.{QueueCoordinator, drop_queued}
use claw.Policy.{resolve_message_key}
use claw.Message.{Dependencies}
use claw.Message.Replies.{stop_command_response, no_active_task_message, build_execution_key}
use claw.Message.Handle.{Service, Closure, run_closures, stop_in_flight}

-- The logical key to stop, or the response instead.
pub data StopKey : Type 0 where
  stop_at : Text → StopKey
  stop_reply : MessageResponse → StopKey

unfoldable pub stop_report : Bool → ℕ → MessageResponse
stop_report stopped dropped =
    if not stopped && dropped == 0
    then stop_command_response
        (codes "No Codex run or queued message is active for this conversation.")
    else if stopped && ltb 0 dropped
    then stop_command_response (
        codes "Stopping the current Codex run and dropped "
        ++ (decimal dropped ++ codes " queued message(s)."))
    else if stopped
    then stop_command_response (codes "Stopping the current Codex run.")
    else stop_command_response (
        codes "Dropped "
        ++ (decimal dropped ++ codes " queued message(s). No Codex run was active."))

abbrev stop_request : Text → Time → MessageRequest
stop_request user_id received_at = record {
  user_id = user_id;
  channel_id = [];
  message_id = [];
  content = [];
  task_override_name = [];
  image_paths = [];
  cleanup = none;
  progress_sink = none;
  mentioned = false;
  received_at = received_at;
}

module _ {W : Type 0} (d : Dependencies W) where
  abbrev stop_failure : Mode → Error → Result StopKey
  stop_failure journal e = err (wrap (codes "resolve stop logical thread key") e)
  stop_failure thread e =
      if is_error e no_active_task
      then ok (stop_reply (stop_command_response (no_active_task_message d.command_name)))
      else err (wrap (codes "resolve stop logical thread key") e)

  abbrev stop_session : Option DailySession → StopKey
  stop_session none =
      stop_reply
        (stop_command_response (codes "No shared journal conversation is active for today."))
  stop_session (some active) = stop_at active.logical_thread_key

  abbrev stop_key_in : Mode → Result Text → Action W StopKey
  stop_key_in thread (ok key) = succeed (stop_at key)
  stop_key_in journal (ok key) = do
    active ← or_wrap (codes "load active journal session") (d.store.get_active_daily_session key)
    succeed (stop_session active)
  stop_key_in mode (err e) = of_result (stop_failure mode e)

  unfoldable pub resolve_stop_logical_key : Text → Time → Action W StopKey
  resolve_stop_logical_key user_id received_at = do
    key ←
        attempt (resolve_message_key d.store d.local_date d.mode (stop_request user_id received_at))
    stop_key_in d.mode key

  abbrev pub reported : ℕ → Bool × Service W → Result MessageResponse × Service W
  reported n (stopped, s) = (ok (stop_report stopped n), s)

  abbrev pub after_drop :
      Text
      → Service W
      → ℕ × List Closure × QueueCoordinator Closure
      → Result MessageResponse × Service W
  after_drop key s (n, closures, c) =
      reported n (stop_in_flight d key (run_closures d closures (record s { coordinator = c })))

  -- What the stop does once its key is known.
  unfoldable pub stop_execution : Text → Service W → Result MessageResponse × Service W
  unfolding stop_report
  stop_execution key s = after_drop key s (drop_queued key s.coordinator)

  abbrev after_stop_key : Service W → Result StopKey × W → Result MessageResponse × Service W
  after_stop_key s (err e, w) = (err e, record s { world = w })
  after_stop_key s (ok (stop_reply response), w) = (ok response, record s { world = w })
  after_stop_key s (ok (stop_at key), w) =
      stop_execution (build_execution_key d.mode key) (record s { world = w })

  unfoldable pub stop_current :
      Option Error → Text → Time → Service W → Result MessageResponse × Service W
  unfolding resolve_stop_logical_key stop_execution
  stop_current (some e) user_id received_at s = (err e, s)
  stop_current none user_id received_at s =
      after_stop_key s (resolve_stop_logical_key user_id received_at s.world)
