-- ===== src/TaskCommands/Tests.antt =====
-- Runs of the commands for tasks, on the tables of the store's tests.
use claw.Prelude.{ℕ, ◌≡◌, refl, true, false, none, some, [], Option}
use claw.Prelude.Text.{Text, text_eq, codes}
use claw.Errors.{ok}
use claw.TaskBranch.Tests.{ascii}
use claw.Queue.{QueueCoordinator, new_queue_coordinator}
use claw.Store.{Store}
use claw.Store.Tests.{store, task_at}
use claw.Prelude.Text.{trim_space}
use claw.Types.{MessageRequest, thread}
use claw.TaskName.{validate_task_name}
use claw.Policy.{build_task_key, resolve_message_key}
use claw.Store.{quiet}
use claw.Store.Tests.{tables}
use claw.TaskCommands.Switch.{switch}
use claw.TaskCommands.Switch.Choice.{Switches, switch-Switches}
use claw.TaskCommands.Create.{create}
use claw.TaskCommands.Create.Naming.{Creates, create-Creates}
use claw.TaskCommands.Create.Routing.{create-resolves, message_for}
use claw.Store.Stamp.{second}
use claw.Services.{sqlite_store}
use claw.TaskCommands.{task_command_response, reset_message, reset_context}
use claw.TaskCommands.Close.{TaskWorktrees, close}
use claw.TaskCommands.Close.Effects.{Closes}
use claw.TaskCommands.Close.Choice.{close-Closes}
use claw.TaskCommands.Show.{list_tasks}
use claw.TaskCommands.Show.Lines.{Lists, list_tasks-Lists}
use claw.TaskCommands.Reset.{ResetFrom, reset_context-ResetFrom}

abbrev request : MessageRequest
request = record {
  user_id = [];
  channel_id = codes "c";
  message_id = codes "m";
  content = codes "go";
  task_override_name = [];
  image_paths = [];
  cleanup = none;
  progress_sink = none;
  mentioned = true;
  received_at = 3;
}

abbrev idle : QueueCoordinator ℕ
idle = new_queue_coordinator

-- The task has no binding.
resets :
    (reset_context (sqlite_store ascii) (codes "claw") idle (codes "u") store).0
    ≡ ok (task_command_response (reset_message false (task_at (codes "t") second)))
unfolding reset_context claw.Store.Tasks.get_active_task claw.Store.Tasks.get_task
    claw.Store.Bindings.get_thread_binding claw.Store.Bindings.delete_thread_binding
    claw.Store.driver claw.Store.query claw.Store.exec claw.Prelude.first claw.Prelude.Text.text_eq
    claw.Prelude.Text.codes claw.Queue.snapshot claw.Queue.new_queue_coordinator
    claw.Policy.build_task_key
resets = refl

reset_context-ResetFrom_example :
    ResetFrom ascii
      (codes "claw")
      idle
      (codes "u")
      store
      (reset_context (sqlite_store ascii) (codes "claw") idle (codes "u") store)
reset_context-ResetFrom_example =
    reset_context-ResetFrom ascii (codes "claw") idle (codes "u") store

create-Creates_example :
    Creates ascii (codes "claw") (codes "n") (codes "u") (trim_space (codes " docs ")) tables 7 (
      create
        (sqlite_store ascii)
        ascii
        (codes "claw")
        (codes "n")
        (codes "u")
        (codes " docs ")
        (quiet tables 7))
create-Creates_example =
    create-Creates ascii (codes "claw") (codes "n") (codes "u") (codes " docs ") tables 7

create-resolves_example :
    (resolve_message_key
      (sqlite_store ascii)
      (λ t. codes "2026-04-05")
      thread
      (message_for request (codes "u") (trim_space (codes " docs ")))
      (create
        (sqlite_store ascii)
        ascii
        (codes "claw")
        (codes "n")
        (codes "u")
        (codes " docs ")
        (quiet tables 7)).1).0
    ≡ ok (build_task_key (codes "u") (codes "n"))
unfolding validate_task_name claw.Prelude.Text.is_empty trim_space codes claw.Store.Tasks.open_tasks
    claw.Prelude.select claw.Prelude.first claw.Prelude.Text.text_eq claw.Store.Stamp.stamp_lt
create-resolves_example =
    create-resolves ascii (codes "claw") (codes "n") (codes "u") (codes " docs ") tables 7
      (λ t. codes "2026-04-05") request refl refl refl

switch-Switches_example :
    Switches ascii text_eq
      (codes "claw")
      (codes "u")
      tables
      7
      (trim_space (codes " late "))
      (trim_space [])
      (switch
        (sqlite_store ascii)
        text_eq
        (codes "claw")
        (codes "u")
        (codes " late ")
        []
        (quiet tables 7))
switch-Switches_example =
    switch-Switches ascii text_eq (codes "claw") (codes "u") tables 7 (codes " late ") []

-- A manager that prunes nothing, with the branch `main` everywhere.
abbrev worktrees : Option (TaskWorktrees Store)
worktrees = some (record {
  prune_closed = λ s. (ok tt, s);
  current_branch = some (λ task s. (ok (some (codes "main")), s));
})

close-Closes_example :
    Closes ascii worktrees text_eq
      (codes "claw")
      (codes "u")
      tables
      7
      (trim_space [])
      (trim_space (codes " late "))
      (close
        (sqlite_store ascii)
        worktrees
        text_eq
        (codes "claw")
        (codes "u")
        []
        (codes " late ")
        (quiet tables 7))
unfolding claw.Prelude.first
close-Closes_example =
    close-Closes ascii worktrees text_eq (codes "claw") (codes "u") [] (codes " late ") tables 7
      (refl, tt) (λ t. record { tables = t; later = 7; is_quiet = refl; active_tasks = refl })

list_tasks-Lists_example :
    Lists worktrees store.tables
      (codes "claw")
      (codes "u")
      store
      (list_tasks (sqlite_store ascii) worktrees (codes "claw") (codes "u") store)
list_tasks-Lists_example =
    list_tasks-Lists ascii worktrees (codes "claw") (codes "u") store (λ task s. refl)
