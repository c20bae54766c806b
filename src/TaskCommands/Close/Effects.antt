-- ===== src/TaskCommands/Close/Effects.antt =====
-- internal/app/task_service.go: what closing a task does, over the SQLite store.
use claw.Prelude.{
  ◌≡◌, refl, ap, ◌∙◌, inl, inr, Bool, true, false, ◌&&◌, Option, none, some, arith, first,
  Bool-cases, Option-cases, if◌then◌else◌,
}
use claw.Prelude.Text.{codes, Text, text_eq, text_eq_refl}
use claw.Errors.{Result, ok}
use claw.Types.{Time, MessageResponse, Task, ActiveTask, is_closed}
use claw.TaskBranch.{Unicode}
use claw.Store.{Tables, Store, quiet, driver, query, exec, clock, transaction}
use claw.Store.Tasks.{
  get_task, get_active_task, close_task, require_row, close_rows, drop_active, is_user,
}
use claw.Store.Tasks.Closing.{
  IsKeyed, task_of, active_of, closed_at_time, unless_active, task_of-close_rows,
  active_of-drop_active, closed_row,
}
use claw.Services.{sqlite_store}
use claw.TaskCommands.Switch.Choice.{Selects, Unselected}
use claw.TaskCommands.{task_command_response}
use claw.TaskCommands.Close.{
  already_closed_message, TaskWorktrees, prune_closed_task_worktrees, active_suffix, closed_reply,
  is_active_task, render_active_task_suffix, after_close, close_open,
}

-- The row of the user's active task, if there are both.
abbrev pub active_row : Text → Option ActiveTask → Tables → Option Task
active_row user_id none t = none
active_row user_id (some active) t = task_of user_id active.task_id t

-- The tables of a closed task: only its row changes, and only the user's choice of it goes.
pub record IsClosedIn (user_id task_id : Text) (now : Time) (before after : Tables) : Type 0 where
  pub rows :
      (user id : Text)
      → task_of user id after ≡ (
          if text_eq user_id user && text_eq task_id id
          then closed_at_time now (task_of user id before)
          else task_of user id before)
  pub active :
      (user : Text)
      → active_of user after ≡ (
          if text_eq user_id user
          then unless_active task_id (active_of user before)
          else active_of user before)

-- What the pruning does with a driver that goes through: it leaves the active tasks and the driver
-- alone.
pub record Pruned (before : Tables) (s : Store) : Type 0 where
  pub tables : Tables
  pub later : Time
  pub is_quiet : s ≡ quiet tables later
  pub active_tasks : tables.active_tasks ≡ before.active_tasks

module _ (u : Unicode) (worktrees : Option (TaskWorktrees Store)) (equal_fold : Text → Text → Bool)
    (c : Text) (user_id : Text) (t : Tables) (now : Time) where
  -- The ways the command ends while the driver goes through.
  pub data Closes (task_id name : Text) : Result MessageResponse × Store → Type 0 where
    told :
        (text : Text)
        → Unselected u equal_fold c user_id t now (codes "task-close") task_id name text
        → Closes task_id name (ok (task_command_response text), quiet t now)
    was_closed :
        (task : Task)
        → Selects u equal_fold c user_id t now task_id name task
        → is_closed task.status ≡ true
        → Closes task_id name
            (ok (task_command_response (already_closed_message c task_id)), quiet t now)
    gone :
        (task : Task) (t' : Tables) (end : Tables) (later : Time)
        → Selects u equal_fold c user_id t now task_id name task
        → is_closed task.status ≡ false
        → IsClosedIn user_id task.task_id now t t'
        → prune_closed_task_worktrees worktrees (quiet t' now) ≡ quiet end later
        → Closes task_id name (
          ok (closed_reply task (active_suffix (active_row user_id (active_of user_id end) end))),
          quiet end later,
        )

abbrev closed_tables : Time → Text → Text → Tables → Tables
closed_tables now user_id task_id t = record t {
  tasks = close_rows now user_id task_id t.tasks;
  active_tasks = drop_active user_id task_id t.active_tasks;
}

closed_tables-IsClosedIn :
    (now : Time) (user_id task_id : Text) (t : Tables)
    → IsKeyed t.active_tasks
    → IsClosedIn user_id task_id now t (closed_tables now user_id task_id t)
unfolding task_of active_of
closed_tables-IsClosedIn now user_id task_id t keyed = record {
  rows = λ user id. task_of-close_rows now user_id task_id user id t.tasks;
  active = λ user. active_of-drop_active user_id task_id user t.active_tasks keyed;
}

-- The call of the store for a task that has its row.
close_task-closed :
    (user_id task_id : Text) (t : Tables) (now : Time) (row : Task)
    → task_of user_id task_id t ≡ some row
    → close_task user_id task_id (quiet t now)
      ≡ (ok tt, quiet (closed_tables now user_id task_id t) now)
unfolding close_task clock transaction exec driver require_row task_of first close_rows
close_task-closed user_id task_id t now row e =
    rw (closed_row user_id task_id now t (some row) e) refl

module _ (u : Unicode) (worktrees : Option (TaskWorktrees Store)) (equal_fold : Text → Text → Bool)
    (c : Text) (user_id : Text) where
  suffix_read :
      (t : Tables) (now : Time)
      → render_active_task_suffix (sqlite_store u) worktrees equal_fold c user_id (quiet t now)
        ≡ (ok (active_suffix (active_row user_id (active_of user_id t) t)), quiet t now)
  unfolding render_active_task_suffix get_active_task get_task driver query task_of active_of
  suffix_read t now = elim (Option-cases (first (is_user user_id) t.active_tasks)) [
    | inl e ↦ rw e refl
    | inr (active, e) ↦ rw e refl
  ]

  module _ (t : Tables) (now : Time) (keyed : IsKeyed t.active_tasks)
      (prunes : (tables : Tables)
        → Pruned tables (prune_closed_task_worktrees worktrees (quiet tables now))) where
    none_left :
        (task : Task) (active : ActiveTask) (end : Tables)
        → text_eq active.task_id task.task_id ≡ true
        → active_of user_id t ≡ some active
        → end.active_tasks ≡ drop_active user_id task.task_id t.active_tasks
        → active_of user_id end ≡ none
    unfolding active_of
    none_left task active end h was left =
        ap (first (is_user user_id)) left
        ∙ active_of-drop_active user_id task.task_id user_id t.active_tasks keyed
        ∙ rw (text_eq_refl user_id, was, h) refl

    -- When the closed task was the active one, none is left.
    reply_lem :
        (task : Task) (active : Option ActiveTask) (end : Tables)
        → is_active_task task active ≡ true
        → active_of user_id t ≡ active
        → end.active_tasks ≡ drop_active user_id task.task_id t.active_tasks
        → active_suffix (active_row user_id (active_of user_id end) end) ≡ active_suffix none
    reply_lem task none end h was left = absurd (ground (arith, h))
    reply_lem task (some active) end h was left =
        ap (λ o. active_suffix (active_row user_id o end)) (none_left task active end h was left)

    -- What is behind the call of the store, in the state that the pruning leaves.
    after_close-Closes :
        (task_id name : Text) (task : Task) (active : Option ActiveTask) (end : Tables)
        (later : Time)
        → Selects u equal_fold c user_id t now task_id name task
        → is_closed task.status ≡ false
        → prune_closed_task_worktrees worktrees
            (quiet (closed_tables now user_id task.task_id t) now)
          ≡ quiet end later
        → active_of user_id t ≡ active
        → end.active_tasks ≡ drop_active user_id task.task_id t.active_tasks
        → Closes u worktrees equal_fold c user_id t now task_id name (
            after_close
              (sqlite_store u)
              worktrees
              equal_fold
              c
              user_id
              task_id
              task
              active
              (ok tt, quiet (closed_tables now user_id task.task_id t) now))
    unfolding after_close
    after_close-Closes task_id name task active end later selected unclosed e was left =
        elim (Bool-cases (is_active_task task active)) [
          | inl h ↦
              rw (h, e)
                (rw (← reply_lem task active end h was left) (
                  gone task _ end later selected unclosed
                    (closed_tables-IsClosedIn now user_id task.task_id t keyed) e))
          | inr h ↦
              rw (h, e)
                (rw (suffix_read end later) (
                  gone task _ end later selected unclosed
                    (closed_tables-IsClosedIn now user_id task.task_id t keyed) e))
        ]

    pub close_open-Closes :
        (task_id name : Text) (task row : Task)
        → Selects u equal_fold c user_id t now task_id name task
        → is_closed task.status ≡ false
        → task_of user_id task.task_id t ≡ some row
        → Closes u worktrees equal_fold c user_id t now task_id name
            (close_open (sqlite_store u) worktrees equal_fold c user_id task_id task (quiet t now))
    unfolding close_open get_active_task driver query active_of
    close_open-Closes task_id name task row selected unclosed there =
        let p = prunes (closed_tables now user_id task.task_id t) in
        rw (close_task-closed user_id task.task_id t now row there) (
          after_close-Closes task_id name task (active_of user_id t) p.tables p.later selected
            unclosed p.is_quiet refl p.active_tasks)
