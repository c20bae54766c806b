-- ===== src/Message.antt =====
-- internal/app/message_service_impl.go: a message is prepared before it is admitted to a queue.
pub mod Replies
pub mod Execute
pub mod Prepared
pub mod Handle
pub mod Stop
pub mod Turns
pub mod Continuity
mod Tests
use claw.Prelude.{
  ℕ, ◌≡◌, Bool, true, false, not, Option, none, some, List, [], ◌∷◌, ◌++◌, if◌then◌else◌,
}
use claw.Prelude.Text.{Text, codes, is_empty}
use claw.Errors.{
  Error, is_error, no_active_task, task_override_not_found, task_override_closed,
  task_override_ambiguous, wrap, Result, ok, err, Action, ◌>>=◌, or_wrap, continue_with, succeed,
  fail, attempt, of_result,
}
use claw.Types.{
  Time, Mode, journal, thread, MessageRequest, MessageResponse, DailySession, Task, RunTurnResult,
  CodexTurnInput,
}
use claw.Daily.{resolve_active_daily_session}
use claw.TaskOverride.{ParsedTaskOverride, parse_task_override}
use claw.Services.{ThreadStore}
use claw.Policy.{resolve_message_key}
use claw.Policy.Keys.{task_id_from_logical_key}
use Replies.{
  no_active_task_message, override_not_found_message, override_closed_message,
  override_ambiguous_message, reply_to,
}

-- What the message service is built with; `W` is the state of the world behind these calls.
pub record Dependencies (W : Type 0) : Type 0 where
  pub mode : Mode
  pub command_name : Text
  pub local_date : Time → Text
  pub store : ThreadStore W
  pub ensure_ready : Task → Action W Task
  pub refresh_before_first_daily_turn : DailySession → Action W (Unit {0})
  pub run_turn : Text → CodexTurnInput → Action W RunTurnResult
  pub deliver_progress : ℕ → Text → Action W (Unit {0})
  pub deliver_reply : ℕ → MessageResponse → Action W (Unit {0})
  pub current_time : W → Time
  pub run_cleanup : ℕ → W → W

-- `daily_session` is set in journal mode and `task_id` in thread mode; the other is Go's zero value.
pub record PreparedMessage : Type 0 where
  pub logical_key : Text
  pub daily_session : DailySession
  pub user_id : Text
  pub task_id : Text
  pub task_override_name : Text
  pub channel_id : Text
  pub reply_to_id : Text
  pub received_at : Time
  pub input : CodexTurnInput
  pub sink : Option ℕ
  pub cleanup : Option ℕ

abbrev zero_session : DailySession
zero_session = record {
  local_date = [];
  generation = 0;
  logical_thread_key = [];
  previous_logical_thread_key = [];
  activation_reason = [];
  is_active = false;
  created_at = 0;
  updated_at = 0;
}

-- A message is answered at once, or ready to run.
pub data Preparation : Type 0 where
  handled : MessageResponse → Preparation
  prepared : PreparedMessage → Preparation

module _ {W : Type 0} (d : Dependencies W) where
  -- The switch on the errors of `ResolveMessageKey`.
  unfoldable pub resolve_failure : MessageRequest → Error → Result Preparation
  resolve_failure request e =
      let name = request.task_override_name in
      if is_error e no_active_task
      then ok (handled (reply_to request.message_id (no_active_task_message d.command_name)))
      else if is_error e task_override_not_found
      then ok
          (handled (reply_to request.message_id (override_not_found_message d.command_name name)))
      else if is_error e task_override_closed
      then ok (handled (reply_to request.message_id (override_closed_message d.command_name name)))
      else if is_error e task_override_ambiguous
      then ok
          (handled (reply_to request.message_id (override_ambiguous_message d.command_name name)))
      else err (wrap (codes "resolve logical thread key") e)

  abbrev pub base_message : MessageRequest → Option ℕ → Text → PreparedMessage
  base_message request sink key = record {
    logical_key = key;
    daily_session = zero_session;
    user_id = request.user_id;
    task_id = [];
    task_override_name = request.task_override_name;
    channel_id = request.channel_id;
    reply_to_id = request.message_id;
    received_at = request.received_at;
    input = record {
      prompt = request.content;
      image_paths = request.image_paths;
      working_directory = [];
      progress_sink = request.progress_sink;
    };
    sink = sink;
    cleanup = request.cleanup;
  }

  abbrev pub with_task : PreparedMessage → Result Text → Action W Preparation
  with_task p (ok task_id) = succeed (prepared (record p { task_id = task_id }))
  with_task p (err e) = fail e

  -- What follows once the key is known.
  unfoldable pub prepare_key : Mode → PreparedMessage → Action W Preparation
  prepare_key journal p = do
    session ←
        or_wrap (codes "resolve active journal session")
          (resolve_active_daily_session d.store.sessions p.logical_key)
    succeed
        (prepared (record p { logical_key = session.logical_thread_key; daily_session = session }))
  prepare_key thread p = with_task p (task_id_from_logical_key p.user_id p.logical_key)

  abbrev pub after_resolve : MessageRequest → Option ℕ → Result Text → Action W Preparation
  after_resolve request sink (ok key) = prepare_key d.mode (base_message request sink key)
  after_resolve request sink (err e) = of_result (resolve_failure request e)

  unfoldable pub prepare_request : MessageRequest → Option ℕ → Action W Preparation
  unfolding prepare_key resolve_failure
  prepare_request request sink = do
    key ← attempt (resolve_message_key d.store d.local_date d.mode request)
    after_resolve request sink key

  abbrev pub overridden : MessageRequest → ParsedTaskOverride → MessageRequest
  overridden request o = record request { content = o.prompt; task_override_name = o.task_name }

  abbrev pub has_images : MessageRequest → Bool
  has_images request = elim request.image_paths [ [] ↦ false | _ ↦ true ]

  -- The override of a message in thread mode.
  unfoldable pub prepare_override :
      MessageRequest → Option ℕ → ParsedTaskOverride → Action W Preparation
  unfolding prepare_request
  prepare_override request sink o =
      if not (is_empty o.reject_message)
      then succeed (handled (reply_to request.message_id o.reject_message))
      else prepare_request (overridden request o) sink

  unfoldable pub prepare_in : Mode → MessageRequest → Option ℕ → Action W Preparation
  unfolding prepare_override
  prepare_in journal request sink = prepare_request request sink
  prepare_in thread request sink =
      prepare_override request sink (parse_task_override request.content (has_images request))

  unfoldable pub prepare_message : MessageRequest → Option ℕ → Action W Preparation
  unfolding prepare_in
  prepare_message request sink = prepare_in d.mode request sink
