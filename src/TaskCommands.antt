-- ===== src/TaskCommands.antt =====
-- internal/app/task_service.go: the command that resets the conversation of a task, and its replies.
pub mod Reset
pub mod Create
pub mod Switch
pub mod Close
pub mod Show
mod Tests
use claw.Prelude.{ℕ, Bool, true, false, Option, none, some, [], ◌∷◌, ◌++◌, if◌then◌else◌}
use claw.Prelude.Text.{Text, codes}
use claw.Errors.{Action, Result, ok, err, ◌>>=◌, ◌>>◌, or_wrap, continue_with, succeed}
use claw.Types.{thread, MessageResponse, ThreadBinding, Task, ActiveTask}
use claw.Queue.{QueueCoordinator, snapshot}
use claw.Commands.{task_list, task_switch_placeholder, task_reset_context}
use claw.Policy.{build_task_key}
use claw.Services.{ThreadStore}
use claw.Clear.{is_busy}
use claw.Message.Replies.{build_execution_key, no_active_task_message}

abbrev pub task_command_response : Text → MessageResponse
task_command_response text = record {
  text = text;
  reply_to_id = [];
  ephemeral = true;
  ignore = false;
  deferred = false;
}

unfoldable pub render_task : Task → Text
render_task task = b'`' ∷ (task.task_name ++ (codes "` (`" ++ (task.task_id ++ codes "`)")))

abbrev pub has_binding : Option ThreadBinding → Bool
has_binding none = false
has_binding (some b) = true

unfoldable pub not_loaded_message : Text → Text → Text
not_loaded_message command_name task_id =
    codes "Active task `"
    ++ (task_id
        ++ (codes "` could not be loaded. Use "
            ++ (task_list command_name
                ++ (codes " or "
                    ++ (task_switch_placeholder command_name ++ codes " to recover.")))))

unfoldable pub still_busy_message : Text → Text
still_busy_message command_name =
    codes
      "This task still has running or queued work. Wait for pending replies to finish, then retry "
    ++ (task_reset_context command_name ++ codes ".")

unfoldable pub reset_message : Bool → Task → Text
unfolding render_task
reset_message had_binding task =
    if had_binding
    then codes "Reset Codex conversation continuity for active task "
      ++ (render_task task
          ++ codes
              ". The task is still active, the workspace is unchanged, and your next normal message will start a fresh Codex thread for this task.")
    else codes "Active task "
      ++ (render_task task
          ++ codes
              " does not have saved Codex conversation continuity yet. The task is still active, the workspace is unchanged, and your next normal message will already start fresh.")

abbrev pub key_for : Text → Task → Text
key_for user_id task = build_task_key user_id task.task_id

module _ {W : Type 0} (store : ThreadStore W) where
  abbrev pub delete_binding_of : Task → Text → Option ThreadBinding → Action W MessageResponse
  delete_binding_of task key found = do
    or_wrap (codes "delete task thread binding") (store.delete_thread_binding thread key)
    succeed (task_command_response (reset_message (has_binding found) task))

  unfoldable pub reset_binding : Task → Text → Action W MessageResponse
  unfolding reset_message
  reset_binding task key = do
    found ← or_wrap (codes "load task thread binding") (store.get_thread_binding thread key)
    delete_binding_of task key found

module _ {W R : Type 0} (store : ThreadStore W) (command_name : Text) (c : QueueCoordinator R) where
  unfoldable pub reset_task : Text → Text → Option Task → Action W MessageResponse
  unfolding reset_binding not_loaded_message still_busy_message
  reset_task user_id task_id none =
      succeed (task_command_response (not_loaded_message command_name task_id))
  reset_task user_id task_id (some task) =
      if is_busy (snapshot (build_execution_key thread (key_for user_id task)) c)
      then succeed (task_command_response (still_busy_message command_name))
      else reset_binding store task (key_for user_id task)

  unfoldable pub reset_active : Text → Option ActiveTask → Action W MessageResponse
  unfolding reset_task
  reset_active user_id none = succeed (task_command_response (no_active_task_message command_name))
  reset_active user_id (some active) = do
    task ← or_wrap (codes "load active task details") (store.get_task user_id active.task_id)
    reset_task user_id active.task_id task

  unfoldable pub reset_context : Text → Action W MessageResponse
  unfolding reset_active
  reset_context user_id = do
    active ← or_wrap (codes "load active task") (store.get_active_task user_id)
    reset_active user_id active
