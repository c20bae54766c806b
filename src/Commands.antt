-- ===== src/Commands.antt =====
-- internal/app/command_surface.go: how the replies name the commands.
use claw.Prelude.{◌++◌}
use claw.Prelude.Text.{Text, codes}

module _ (command_name : Text) where
  unfoldable pub task_list : Text
  task_list = codes "`/" ++ (command_name ++ codes " action:task-list`")

  unfoldable pub task_new_placeholder : Text
  task_new_placeholder = codes "`/" ++ (command_name ++ codes " action:task-new task_name:<name>`")

  unfoldable pub task_switch_placeholder : Text
  task_switch_placeholder =
      codes "`/" ++ (command_name ++ codes " action:task-switch task_name:<name>`")

  unfoldable pub task_switch : Text → Text
  task_switch task_name =
      codes "`/"
      ++ (command_name ++ (codes " action:task-switch task_name:" ++ (task_name ++ codes "`")))

  unfoldable pub task_close : Text → Text
  task_close task_id =
      codes "`/"
      ++ (command_name ++ (codes " action:task-close task_id:" ++ (task_id ++ codes "`")))

  unfoldable pub task_reset_context : Text
  task_reset_context = codes "`/" ++ (command_name ++ codes " action:task-reset-context`")

  unfoldable pub task_id_placeholder : Text → Text
  task_id_placeholder action =
      codes "`/" ++ (command_name ++ (codes " action:" ++ (action ++ codes " task_id:<id>`")))
