-- ===== src/TaskCommands/Create.antt =====
-- internal/app/task_service.go: the command that creates a task. The id of a new task is an argument.
pub mod Naming
pub mod Routing
use claw.Prelude.{Bool, true, false, Option, none, some, List, [], ◌∷◌, ◌++◌, if◌then◌else◌, select}
use claw.Prelude.Text.{Text, codes, is_empty, text_eq, trim_space}
use claw.Errors.{Error, Action, Result, ok, err, ◌>>=◌, ◌>>◌, or_wrap, continue_with, succeed}
use claw.Types.{MessageResponse, Task, ActiveTask, opened, pending}
use claw.Commands.{task_new_placeholder, task_switch, task_id_placeholder}
use claw.TaskName.{validate_task_name}
use claw.TaskBranch.{Unicode, default_task_branch_name}
use claw.Services.{ThreadStore}
use claw.TaskCommands.{task_command_response, render_task}

unfoldable pub task_name_rules_description : Text
task_name_rules_description =
    codes
      "Task names must use lowercase letters, numbers, or single hyphens, start with a letter, end with a letter or number, and be 3 to 32 characters long."

unfoldable pub task_name_required_message : Text → Text
unfolding task_name_rules_description
task_name_required_message command_name =
    codes "A task name is required. Use "
    ++ (task_new_placeholder command_name
        ++ (codes " to create one. " ++ task_name_rules_description))

unfoldable pub already_exists_message : Text → Text → Text
already_exists_message command_name name =
    codes "An open task named `"
    ++ (name
        ++ (codes "` already exists. Use "
            ++ (task_switch command_name name
                ++ (codes " to switch to it or "
                    ++ (task_id_placeholder command_name (codes "task-switch")
                        ++ codes " to pick by task ID when needed.")))))

unfoldable pub created_message : Task → Text
created_message task =
    codes "Created task "
    ++ (render_task task ++ codes " and made it active. Your next message will continue this task.")

unfoldable pub new_task : Unicode → Text → Text → Text → Task
new_task u task_id user_id name = record {
  task_id = task_id;
  discord_user_id = user_id;
  task_name = name;
  status = opened;
  branch_name = default_task_branch_name u name task_id;
  base_ref = [];
  worktree_path = [];
  worktree_status = pending;
  created_at = 0;
  updated_at = 0;
  closed_at = none;
  worktree_created_at = none;
  worktree_pruned_at = none;
  last_used_at = none;
}

abbrev pub activation : Task → ActiveTask
activation task = record {
  discord_user_id = task.discord_user_id;
  task_id = task.task_id;
  updated_at = 0;
}

abbrev pub is_named : Text → Task → Bool
is_named name task = text_eq task.task_name name

module _ {W : Type 0} (store : ThreadStore W) where
  unfoldable pub store_new : Task → Action W MessageResponse
  unfolding created_message
  store_new task = do
    or_wrap (codes "create task") (store.create_task task)
    or_wrap (codes "set active task") (store.set_active_task (activation task))
    succeed (task_command_response (created_message task))

  abbrev pub create_unless : Text → Text → Task → List Task → Action W MessageResponse
  create_unless command_name name task [] = store_new task
  create_unless command_name name task (_ ∷ _) =
      succeed (task_command_response (already_exists_message command_name name))

  abbrev pub create_valid : Text → Text → Task → Option Error → Action W MessageResponse
  create_valid command_name name task (some e) =
      succeed (task_command_response task_name_rules_description)
  create_valid command_name name task none = do
    tasks ←
        or_wrap (codes "list open tasks before create") (store.list_open_tasks task.discord_user_id)
    create_unless command_name name task (select (is_named name) tasks)

  unfoldable pub create_named : Unicode → Text → Text → Text → Text → Action W MessageResponse
  unfolding store_new new_task already_exists_message
  create_named u command_name task_id user_id name =
      if is_empty name
      then succeed (task_command_response (task_name_required_message command_name))
      else create_valid command_name name (new_task u task_id user_id name)
          (validate_task_name name)

  unfoldable pub create : Unicode → Text → Text → Text → Text → Action W MessageResponse
  unfolding create_named
  create u command_name task_id user_id task_name =
      create_named u command_name task_id user_id (trim_space task_name)
