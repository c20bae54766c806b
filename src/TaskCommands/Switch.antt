-- ===== src/TaskCommands/Switch.antt =====
-- internal/app/task_service.go: the command that switches the active task. strings.EqualFold is a
-- parameter.
pub mod Choice
use claw.Prelude.{
  Bool, true, false, ◌&&◌, Option, none, some, List, [], ◌∷◌, ◌++◌, if◌then◌else◌, select,
}
use claw.Prelude.Text.{Text, codes, is_empty, trim_space}
use claw.Errors.{Action, Result, ok, err, ◌>>=◌, ◌>>◌, or_wrap, continue_with, succeed}
use claw.Types.{MessageResponse, Task, ActiveTask, is_open}
use claw.Commands.{task_list, task_new_placeholder, task_id_placeholder}
use claw.Services.{ThreadStore}
use claw.TaskCommands.{task_command_response, render_task}

-- What the selector finds; `several` is a taskCommandError, which becomes the reply.
pub data Selected : Type 0 where
  chosen : Task → Selected
  not_found : Selected
  several : Text → Selected

unfoldable pub task_selector_required_message : Text → Text
task_selector_required_message c =
    codes "A task name or task ID is required. Use "
    ++ (task_list c ++ codes " to find an open task.")

unfoldable pub task_lines : List Task → Text
task_lines [] = []
task_lines (task ∷ tasks) = codes "- " ++ (render_task task ++ (10 ∷ task_lines tasks))

unfoldable pub ambiguous_message : Text → Text → Text → List Task → Text
unfolding task_lines
ambiguous_message c action name tasks =
    codes "Multiple open tasks are named `"
    ++ (name
        ++ (codes "`. Retry with a task ID:"
            ++ (10 ∷ task_lines tasks
                ++ (codes "Use "
                    ++ (task_id_placeholder c action
                        ++ codes " when the task name is ambiguous.")))))

unfoldable pub not_found_message : Text → Text → Text → Text
not_found_message c task_id name =
    if is_empty task_id
    then codes "No open task named `"
      ++ (name ++ (codes "` was found. Use " ++ (task_list c ++ codes " to find an open task.")))
    else codes "Task `"
      ++ (task_id
          ++ (codes "` was not found. Use " ++ (task_list c ++ codes " to find an open task.")))

unfoldable pub closed_message : Text → Text → Text
closed_message c task_id =
    codes "Task `"
    ++ (task_id
        ++ (codes "` is closed. Use "
            ++ (task_list c
                ++ (codes " to find an open task or "
                    ++ (task_new_placeholder c ++ codes " to create another one.")))))

unfoldable pub switched_message : Task → Text
switched_message task =
    codes "Active task is now "
    ++ (render_task task ++ codes ". Your next message will continue this task.")

abbrev pub choice_of : Text → Text → Text → List Task → Selected
choice_of c action name [] = not_found
choice_of c action name (task ∷ []) = chosen task
choice_of c action name (a ∷ b ∷ rest) = several (ambiguous_message c action name (a ∷ b ∷ rest))

abbrev pub loaded : Option Task → Selected
loaded none = not_found
loaded (some task) = chosen task

module _ {W : Type 0} (store : ThreadStore W) (equal_fold : Text → Text → Bool) (c : Text) where
  unfoldable pub load_open_task_by_selector : Text → Text → Text → Text → Action W Selected
  unfolding ambiguous_message
  load_open_task_by_selector user_id task_id name action =
      if is_empty task_id
      then (do
        tasks ← or_wrap (codes "list open tasks for switch") (store.list_open_tasks user_id)
        succeed (choice_of c action name (select (λ task. equal_fold task.task_name name) tasks)))
      else (do
        task ← or_wrap (codes "load task") (store.get_task user_id task_id)
        succeed (loaded task))

  unfoldable pub switch_to : Text → Text → Task → Action W MessageResponse
  unfolding closed_message switched_message
  switch_to user_id task_id task =
      if is_open task.status
      then (do
        or_wrap (codes "set active task") (
            store.set_active_task
              (record { discord_user_id = user_id; task_id = task.task_id; updated_at = 0 }))
        succeed (task_command_response (switched_message task)))
      else succeed (task_command_response (closed_message c task_id))

  unfoldable pub switch_selected : Text → Text → Text → Selected → Action W MessageResponse
  unfolding switch_to not_found_message
  switch_selected user_id task_id name (chosen task) = switch_to user_id task_id task
  switch_selected user_id task_id name not_found =
      succeed (task_command_response (not_found_message c task_id name))
  switch_selected user_id task_id name (several text) = succeed (task_command_response text)

  unfoldable pub switch_trimmed : Text → Text → Text → Action W MessageResponse
  unfolding load_open_task_by_selector switch_selected task_selector_required_message
  switch_trimmed user_id task_id name =
      if is_empty task_id && is_empty name
      then succeed (task_command_response (task_selector_required_message c))
      else (do
        selected ← load_open_task_by_selector user_id task_id name (codes "task-switch")
        switch_selected user_id task_id name selected)

  unfoldable pub switch : Text → Text → Text → Action W MessageResponse
  unfolding switch_trimmed
  switch user_id task_id task_name =
      switch_trimmed user_id (trim_space task_id) (trim_space task_name)
