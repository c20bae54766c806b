-- ===== src/TaskCommands/Show.antt =====
-- internal/app/task_service.go: the commands that show the active task and the open tasks.
pub mod Lines
use claw.Prelude.{Bool, true, false, Option, none, some, List, [], ◌∷◌, ◌++◌, if◌then◌else◌}
use claw.Prelude.Text.{Text, codes, text_eq}
use claw.Errors.{Action, Result, ok, err, ◌>>=◌, or_wrap, continue_with, succeed}
use claw.Types.{MessageResponse, Task, ActiveTask}
use claw.Commands.{task_list, task_new_placeholder, task_switch_placeholder, task_close}
use claw.Services.{ThreadStore}
use claw.Message.Replies.{no_active_task_message}
use claw.TaskCommands.{task_command_response, render_task, not_loaded_message}
use claw.TaskCommands.Close.{TaskWorktrees, is_active_task}

-- strings.Join with a newline
unfoldable pub join_lines : List Text → Text
join_lines [] = []
join_lines (l ∷ []) = l
join_lines (l ∷ m ∷ rest) = l ++ (10 ∷ join_lines (m ∷ rest))

unfoldable pub no_open_tasks_message : Text → Text
no_open_tasks_message c =
    codes "No open tasks yet. Use " ++ (task_new_placeholder c ++ codes " to create one.")

unfoldable pub active_message : Text → Text → Text → Text
active_message c task_id rendered =
    codes "Active task: "
    ++ (rendered
        ++ (codes ". Use "
            ++ (task_list c
                ++ (codes " to see open tasks or "
                    ++ (task_close c task_id ++ codes " when you're done.")))))

abbrev pub with_branch : Task → Option Text → Text
with_branch task none = render_task task
with_branch task (some branch) = render_task task ++ (codes " [branch: `" ++ (branch ++ codes "`]"))

abbrev pub task_line : Bool → Text → Text
task_line is_active rendered =
    codes "- " ++ (if is_active then rendered ++ codes " [active]" else rendered)

abbrev pub list_reply : Text → List Text → MessageResponse
list_reply c lines = task_command_response (
    join_lines (
      codes "Open tasks:"
      ∷ (lines
          ++ ((codes "Use " ++ (task_switch_placeholder c ++ codes " to change the active task."))
              ∷ []))))

module _ {W : Type 0} where
  -- What reads the branch of a worktree, if the manager is there and has it.
  abbrev pub branch_of : Option (Task → Action W (Option Text)) → Task → Action W (Option Text)
  branch_of none task = succeed none
  branch_of (some current_branch) task =
      or_wrap (codes "load task worktree branch") (current_branch task)

  abbrev pub branch_reader : Option (TaskWorktrees W) → Option (Task → Action W (Option Text))
  branch_reader none = none
  branch_reader (some worktrees) = worktrees.current_branch

  abbrev pub render_task_with_branch : Option (TaskWorktrees W) → Task → Action W Text
  render_task_with_branch worktrees task =
      branch_of (branch_reader worktrees) task >>= λ branch. succeed (with_branch task branch)

  -- The lines of the loop over the open tasks.
  unfoldable pub list_lines :
      Option (TaskWorktrees W) → Option ActiveTask → List Task → Action W (List Text)
  list_lines worktrees active [] = succeed []
  list_lines worktrees active (task ∷ tasks) =
      render_task_with_branch worktrees task >>= λ rendered.
      list_lines worktrees active tasks >>= λ rest.
      succeed (task_line (is_active_task task active) rendered ∷ rest)

module _ {W : Type 0} (store : ThreadStore W) (worktrees : Option (TaskWorktrees W))
    (c : Text) where
  abbrev pub show_task : Text → Option Task → Action W MessageResponse
  show_task task_id none = succeed (task_command_response (not_loaded_message c task_id))
  show_task task_id (some task) = render_task_with_branch worktrees task >>= λ rendered.
      succeed (task_command_response (active_message c task.task_id rendered))

  abbrev pub show_active : Text → Option ActiveTask → Action W MessageResponse
  show_active user_id none = succeed (task_command_response (no_active_task_message c))
  show_active user_id (some active) =
      or_wrap (codes "load active task details") (store.get_task user_id active.task_id)
      >>= show_task active.task_id

  unfoldable pub show_current_task : Text → Action W MessageResponse
  unfolding not_loaded_message active_message
  show_current_task user_id =
      or_wrap (codes "load active task") (store.get_active_task user_id) >>= show_active user_id

  abbrev pub list_with : List Task → Option ActiveTask → Action W MessageResponse
  list_with tasks active =
      list_lines worktrees active tasks >>= λ lines. succeed (list_reply c lines)

  abbrev pub list_found : Text → List Task → Action W MessageResponse
  list_found user_id [] = succeed (task_command_response (no_open_tasks_message c))
  list_found user_id (task ∷ tasks) =
      or_wrap (codes "load active task") (store.get_active_task user_id)
      >>= list_with (task ∷ tasks)

  unfoldable pub list_tasks : Text → Action W MessageResponse
  unfolding list_lines join_lines no_open_tasks_message
  list_tasks user_id =
      or_wrap (codes "list open tasks") (store.list_open_tasks user_id) >>= list_found user_id
