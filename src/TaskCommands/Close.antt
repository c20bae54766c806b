-- ===== src/TaskCommands/Close.antt =====
-- internal/app/task_service.go: the command that closes a task, and the worktrees that it prunes.
-- The manager of the worktrees is a parameter, and may be missing.
pub mod Effects
pub mod Choice
use claw.Prelude.{Bool, true, false, ◌&&◌, Option, none, some, [], ◌∷◌, ◌++◌, if◌then◌else◌}
use claw.Prelude.Text.{Text, codes, is_empty, text_eq, trim_space}
use claw.Errors.{
  no_rows, is_error, Error, wrap, Action, Result, ok, err, ◌>>=◌, ◌>>◌, or_wrap, continue_with,
  succeed,
}
use claw.Types.{MessageResponse, Task, ActiveTask, is_closed}
use claw.Commands.{task_list, task_new_placeholder}
use claw.Services.{ThreadStore}
use claw.TaskCommands.{task_command_response, render_task}
use claw.TaskCommands.Switch.{
  Selected, chosen, not_found, several, task_selector_required_message, not_found_message,
  load_open_task_by_selector,
}

-- What the commands use of the manager: `PruneClosed`, and `CurrentBranch` where it has it.
pub record TaskWorktrees (W : Type 0) : Type 0 where
  pub prune_closed : Action W (Unit {0})
  pub current_branch : Option (Task → Action W (Option Text))

unfoldable pub already_closed_message : Text → Text → Text
already_closed_message c task_id =
    codes "Task `"
    ++ (task_id
        ++ (codes "` is already closed. Use "
            ++ (task_list c
                ++ (codes " to find an open task or "
                    ++ (task_new_placeholder c ++ codes " to create another one.")))))

unfoldable pub missing_message : Text → Text → Text
missing_message c task_id =
    codes "Task `"
    ++ (task_id
        ++ (codes "` was not found. Use " ++ (task_list c ++ codes " to find an open task.")))

-- The end of a reply: the task that is still active, if there is one.
abbrev pub active_suffix : Option Task → Text
active_suffix none = codes " No active task is selected now."
active_suffix (some task) = codes " Active task remains " ++ (render_task task ++ codes ".")

unfoldable pub closed_reply : Task → Text → MessageResponse
closed_reply task suffix =
    task_command_response (codes "Closed task " ++ (render_task task ++ (codes "." ++ suffix)))

abbrev pub is_active_task : Task → Option ActiveTask → Bool
is_active_task task none = false
is_active_task task (some active) = text_eq active.task_id task.task_id

-- `pruneClosedTaskWorktrees`, which logs the error.
abbrev pub prune_closed_task_worktrees : {W : Type 0} → Option (TaskWorktrees W) → W → W
prune_closed_task_worktrees none w = w
prune_closed_task_worktrees (some worktrees) w = (worktrees.prune_closed w).1

module _ {W : Type 0} (store : ThreadStore W) (worktrees : Option (TaskWorktrees W))
    (equal_fold : Text → Text → Bool) (c : Text) where
  abbrev pub active_details : Text → Option ActiveTask → Action W (Option Task)
  active_details user_id none = succeed none
  active_details user_id (some active) =
      or_wrap (codes "load remaining active task details") (store.get_task user_id active.task_id)

  unfoldable pub render_active_task_suffix : Text → Action W Text
  render_active_task_suffix user_id = do
    active ← or_wrap (codes "load active task after close") (store.get_active_task user_id)
    task ← active_details user_id active
    succeed (active_suffix task)

  abbrev pub reply_with_suffix : Text → Task → Action W MessageResponse
  reply_with_suffix user_id task = do
    suffix ← render_active_task_suffix user_id
    succeed (closed_reply task suffix)

  -- What follows the call of the store.
  unfoldable pub after_close :
      Text → Text → Task → Option ActiveTask → Result (Unit {0}) × W → Result MessageResponse × W
  unfolding render_active_task_suffix closed_reply missing_message
  after_close user_id task_id task active (ok x, w) =
      let pruned = prune_closed_task_worktrees worktrees w in
      if is_active_task task active
      then (ok (closed_reply task (active_suffix none)), pruned)
      else reply_with_suffix user_id task pruned
  after_close user_id task_id task active (err e, w) =
      if is_error e no_rows
      then (ok (task_command_response (missing_message c task_id)), w)
      else (err (wrap (codes "close task") e), w)

  unfoldable pub close_open : Text → Text → Task → Action W MessageResponse
  unfolding after_close
  close_open user_id task_id task = do
    active ← or_wrap (codes "load active task before close") (store.get_active_task user_id)
    λ w. after_close user_id task_id task active (store.close_task user_id task.task_id w)

  unfoldable pub close_selected : Text → Text → Text → Selected → Action W MessageResponse
  unfolding close_open already_closed_message not_found_message
  close_selected user_id task_id name (chosen task) =
      if is_closed task.status
      then succeed (task_command_response (already_closed_message c task_id))
      else close_open user_id task_id task
  close_selected user_id task_id name not_found =
      succeed (task_command_response (not_found_message c task_id name))
  close_selected user_id task_id name (several text) = succeed (task_command_response text)

  unfoldable pub close_trimmed : Text → Text → Text → Action W MessageResponse
  unfolding load_open_task_by_selector close_selected task_selector_required_message
  close_trimmed user_id task_id name =
      if is_empty task_id && is_empty name
      then succeed (task_command_response (task_selector_required_message c))
      else (do
        selected ←
            load_open_task_by_selector store equal_fold c user_id task_id name (codes "task-close")
        close_selected user_id task_id name selected)

  unfoldable pub close : Text → Text → Text → Action W MessageResponse
  unfolding close_trimmed
  close user_id task_id task_name =
      close_trimmed user_id (trim_space task_id) (trim_space task_name)
