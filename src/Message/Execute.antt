-- ===== src/Message/Execute.antt =====
-- internal/app/message_service_impl.go: one turn of a prepared message, and the cleanup behind it.
use claw.Prelude.{ℕ, Option, none, some, [], if◌then◌else◌}
use claw.Prelude.Text.{Text, codes, is_empty, trim_space}
use claw.Errors.{message, Result, ok, err, Action, ◌>>=◌, ◌>>◌, or_wrap, succeed, fail, attempt}
use claw.Types.{Mode, journal, thread, MessageResponse, ThreadBinding, Task, is_open, RunTurnResult}
use claw.Message.{Dependencies, PreparedMessage}
use claw.Message.Replies.{no_active_task_message, task_override_confirmation_text, reply_to}

-- The task of a message is ready, or there is a reply instead.
pub data Readiness : Type 0 where
  ready : Task → Readiness
  replied : MessageResponse → Readiness

abbrev pub thread_id_of : Option ThreadBinding → Text
thread_id_of none = []
thread_id_of (some b) = b.codex_thread_id

abbrev with_task_id : Mode → Text → ThreadBinding → ThreadBinding
with_task_id journal task_id b = b
with_task_id thread task_id b = record b { task_id = task_id }

abbrev found_or_new : Mode → Text → Option ThreadBinding → ThreadBinding
found_or_new mode key none = record {
  mode = mode;
  logical_thread_key = key;
  codex_thread_id = [];
  task_id = [];
  created_at = 0;
  updated_at = 0;
}
found_or_new mode key (some b) = b

-- The binding that a turn writes back, but for its thread.
abbrev pub binding_for : Mode → PreparedMessage → Option ThreadBinding → ThreadBinding
binding_for mode p found = with_task_id mode p.task_id (found_or_new mode p.logical_key found)

unfoldable pub response_text : PreparedMessage → RunTurnResult → Text
response_text p result =
    if is_empty p.task_override_name
    then result.response_text
    else task_override_confirmation_text p.task_override_name result.response_text

module _ {W : Type 0} (d : Dependencies W) where
  abbrev pub no_task_reply : PreparedMessage → MessageResponse
  no_task_reply p = reply_to p.reply_to_id (no_active_task_message d.command_name)

  abbrev pub setup_failed_reply : PreparedMessage → MessageResponse
  setup_failed_reply p =
      reply_to p.reply_to_id (
        codes "Task workspace setup failed. Please retry after checking the configured repository.")

  abbrev pub readiness : PreparedMessage → Result Task → Readiness
  readiness p (ok task) = ready task
  readiness p (err e) = replied (setup_failed_reply p)

  unfoldable pub ready_or_reply : PreparedMessage → Option Task → Action W Readiness
  ready_or_reply p none = succeed (replied (no_task_reply p))
  ready_or_reply p (some task) =
      if is_open task.status
      then (attempt (d.ensure_ready task) >>= λ r. succeed (readiness p r))
      else succeed (replied (no_task_reply p))

  unfoldable pub ensure_task_ready : PreparedMessage → Action W Readiness
  unfolding ready_or_reply
  ensure_task_ready p = do
    task ← or_wrap (codes "load task for execution") (d.store.get_task p.user_id p.task_id)
    ready_or_reply p task

  abbrev pub touch : Option Task → Action W (Unit {0})
  touch none w = (ok tt, w)
  touch (some task) w =
      or_wrap (codes "persist task last-used update")
        (d.store.update_task
          (record task { last_used_at = some (d.current_time w); updated_at = d.current_time w }))
        w

  unfoldable pub touch_task_last_used : Text → Text → Action W (Unit {0})
  touch_task_last_used user_id task_id = do
    task ← or_wrap (codes "load task before last-used update") (d.store.get_task user_id task_id)
    touch task

  abbrev pub touch_in : Mode → PreparedMessage → Action W (Unit {0})
  touch_in journal p = succeed tt
  touch_in thread p = attempt (touch_task_last_used p.user_id p.task_id) >> succeed tt

  abbrev pub progress : Option ℕ → Action W (Unit {0})
  progress none = succeed tt
  progress (some sink) = attempt (d.deliver_progress sink (codes "Thinking...")) >> succeed tt

  abbrev pub answer : PreparedMessage → RunTurnResult → Action W MessageResponse
  answer p result = touch_in d.mode p >> succeed (reply_to p.reply_to_id (response_text p result))

  -- What follows the turn: its thread is stored, or its error is returned.
  unfoldable pub finish_turn :
      PreparedMessage → ThreadBinding → RunTurnResult → Action W MessageResponse
  unfolding touch_task_last_used response_text
  finish_turn p binding result =
      if is_empty (trim_space result.thread_id)
      then fail (message (codes "codex gateway returned an empty thread id"))
      else (do
        or_wrap (codes "persist thread binding")
            (d.store.upsert_thread_binding (record binding { codex_thread_id = result.thread_id }))
        answer p result)

  abbrev pub run_from : PreparedMessage → Option ThreadBinding → Action W MessageResponse
  run_from p found = do
    result ← or_wrap (codes "run codex turn") (d.run_turn (thread_id_of found) p.input)
    finish_turn p (binding_for d.mode p found) result

  unfoldable pub execute_turn : PreparedMessage → Action W MessageResponse
  unfolding finish_turn
  execute_turn p = do
    found ← or_wrap (codes "load thread binding") (d.store.get_thread_binding d.mode p.logical_key)
    progress p.input.progress_sink
    run_from p found

  abbrev pub working_in : PreparedMessage → Task → PreparedMessage
  working_in p task = record p { input = record p.input { working_directory = task.worktree_path } }

  abbrev pub execute_ready : PreparedMessage → Readiness → Action W MessageResponse
  execute_ready p (ready task) = execute_turn (working_in p task)
  execute_ready p (replied response) = succeed response

  unfoldable pub execute_in : Mode → PreparedMessage → Action W MessageResponse
  unfolding ensure_task_ready execute_turn
  execute_in thread p = do r ← ensure_task_ready p; execute_ready p r
  execute_in journal p =
      attempt (d.refresh_before_first_daily_turn p.daily_session) >> execute_turn p

  abbrev pub run_cleanup : Option ℕ → W → W
  run_cleanup none w = w
  run_cleanup (some c) w = d.run_cleanup c w

  abbrev pub after_cleanup : Option ℕ → Result MessageResponse × W → Result MessageResponse × W
  after_cleanup cleanup (r, w) = (r, run_cleanup cleanup w)

  -- The cleanup is deferred: it runs on every way out.
  unfoldable pub execute_prepared_message : PreparedMessage → Action W MessageResponse
  unfolding execute_in
  execute_prepared_message p w = after_cleanup p.cleanup (execute_in d.mode p w)
