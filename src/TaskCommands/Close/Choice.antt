-- ===== src/TaskCommands/Close/Choice.antt =====
-- internal/app/task_service.go: which task the close command closes, over the SQLite store.
use claw.Prelude.{
  ◌≡◌, refl, ap, inl, inr, Bool, true, false, Option, none, some, List, [], ◌∷◌, arith, select,
  Bool-cases, Option-cases,
}
use claw.Prelude.Text.{Text, codes, is_empty, trim_space}
use claw.Types.{Time, Task, is_closed}
use claw.TaskBranch.{Unicode}
use claw.Store.{Tables, Store, quiet, driver, query}
use claw.Store.Tasks.{open_tasks, list_open_tasks, get_task}
use claw.Store.Tasks.Closing.{IsKeyed, task_of}
use claw.Store.Tasks.Present.{open_tasks-present, task_of-task_id}
use claw.TaskCommands.Close.Effects.{Closes, Pruned, close_open-Closes}
use claw.Services.{sqlite_store}
use claw.TaskCommands.Switch.{chosen, choice_of, loaded, load_open_task_by_selector}
use claw.TaskCommands.Switch.Choice.{Selects, Unselected}
use claw.TaskCommands.Close.{
  TaskWorktrees, prune_closed_task_worktrees, close_selected, close_trimmed, close,
}

module _ (u : Unicode) (worktrees : Option (TaskWorktrees Store)) (equal_fold : Text → Text → Bool)
    (c : Text) (user_id : Text) (t : Tables) (now : Time) (keyed : IsKeyed t.active_tasks)
    (prunes : (tables : Tables)
      → Pruned tables (prune_closed_task_worktrees worktrees (quiet tables now))) where
  -- A task that the selector finds has its row.
  chosen-Closes :
      (task_id name : Text) (task : Task)
      → Selects u equal_fold c user_id t now task_id name task
      → (task_of user_id task.task_id t ≡ none → ⊥)
      → Closes u worktrees equal_fold c user_id t now task_id name (
          close_selected
            (sqlite_store u)
            worktrees
            equal_fold
            c
            user_id
            task_id
            name
            (chosen task)
            (quiet t now))
  unfolding close_selected
  chosen-Closes task_id name task s there = elim (Bool-cases (is_closed task.status)) [
    | inl h ↦ rw h (Closes.was_closed task s h)
    | inr h ↦ rw h (elim (Option-cases (task_of user_id task.task_id t)) [
      | inl e ↦ absurd (there e)
      | inr (row, e) ↦
          close_open-Closes u worktrees equal_fold c user_id t now keyed prunes task_id name task
            row s h e
    ])
  ]

  by_name-Closes :
      (task_id name : Text) (rows : List Task)
      → is_empty task_id ≡ true
      → is_empty name ≡ false
      → select (λ row. equal_fold row.task_name name) (open_tasks user_id t.tasks) ≡ rows
      → Closes u worktrees equal_fold c user_id t now task_id name (
          close_selected
            (sqlite_store u)
            worktrees
            equal_fold
            c
            user_id
            task_id
            name
            (choice_of c (codes "task-close") name rows)
            (quiet t now))
  unfolding close_selected
  by_name-Closes task_id name [] h n e = Closes.told _ (Unselected.no_name h n e)
  by_name-Closes task_id name (task ∷ []) h n e =
      chosen-Closes task_id name task (inr (h, e))
        (open_tasks-present (λ row. equal_fold row.task_name name) user_id task t e)
  by_name-Closes task_id name (a ∷ b ∷ rest) h n e = Closes.told _ (Unselected.many a b rest h n e)

  by_id-Closes :
      (task_id name : Text) (o : Option Task)
      → is_empty task_id ≡ false
      → task_of user_id task_id t ≡ o
      → Closes u worktrees equal_fold c user_id t now task_id name (
          close_selected
            (sqlite_store u)
            worktrees
            equal_fold
            c
            user_id
            task_id
            name
            (loaded o)
            (quiet t now))
  unfolding close_selected
  by_id-Closes task_id name none h e = Closes.told _ (Unselected.no_id h e)
  by_id-Closes task_id name (some task) h e = chosen-Closes task_id name task (inl (h, e)) (λ n.
      ground
        (arith, e, n, ap (λ id. task_of user_id id t) (task_of-task_id user_id task_id task t e)))

  close_trimmed-Closes :
      (task_id name : Text)
      → Closes u worktrees equal_fold c user_id t now task_id name
          (close_trimmed (sqlite_store u) worktrees equal_fold c user_id task_id name (quiet t now))
  unfolding close_trimmed load_open_task_by_selector list_open_tasks get_task driver query task_of
  close_trimmed-Closes task_id name = elim (Bool-cases (is_empty task_id)) [
    | inr h ↦ rw h (by_id-Closes task_id name _ h refl)
    | inl h ↦ rw h (elim (Bool-cases (is_empty name)) [
      | inl k ↦ rw k (Closes.told _ (Unselected.blank h k))
      | inr k ↦ rw k (by_name-Closes task_id name _ h k refl)
    ])
  ]

-- While the driver goes through, with one row for each user in the table of active tasks, and a pruning
-- that leaves the active tasks and the driver alone: closing a task changes nothing and says why, that
-- a selector is required, that no task is found by the id or the name, that the name is ambiguous, or
-- that the task is already closed, each when that is so. Else the task selected was not closed, only
-- its row is closed, only the user's choice of it ends, the worktrees are pruned behind that, and the
-- reply names the active task that is left, if there is one.
pub close-Closes :
    (u : Unicode) (worktrees : Option (TaskWorktrees Store)) (equal_fold : Text → Text → Bool)
    (c user_id task_id task_name : Text) (t : Tables) (now : Time)
    → IsKeyed t.active_tasks
    → ((tables : Tables) → Pruned tables (prune_closed_task_worktrees worktrees (quiet tables now)))
    → Closes u worktrees equal_fold c user_id t now
        (trim_space task_id)
        (trim_space task_name)
        (close (sqlite_store u) worktrees equal_fold c user_id task_id task_name (quiet t now))
unfolding close
close-Closes u worktrees equal_fold c user_id task_id task_name t now keyed prunes =
    close_trimmed-Closes u worktrees equal_fold c user_id t now keyed prunes (trim_space task_id)
      (trim_space task_name)
