-- ===== src/Store/Tasks.antt =====
-- internal/store/sqlite/store.go: the tables of tasks and of active tasks.
pub mod Order
pub mod Closing
pub mod Selection
pub mod Present
use claw.Prelude.{
  ◌≡◌, Bool, true, false, not, ◌&&◌, ◌||◌, Option, none, some, List, [], ◌∷◌, ◌++◌, map,
  if◌then◌else◌, first, select,
}
use claw.Prelude.Text.{Text, codes, is_empty, text_eq}
use claw.Errors.{
  Error, sentinel, message, no_rows, Result, ok, err, Action, ◌>>=◌, ◌>>◌, or_wrap, continue_with,
  succeed, fail,
}
use claw.TaskBranch.{Unicode, default_task_branch_name}
use claw.Types.{
  Time, is_zero, Task, TaskStatus, TaskWorktreeStatus, opened, closed, pending, is_open, is_closed,
  is_ready, ActiveTask,
}
use claw.Store.{Tables, Store, driver, query, exec, clock, transaction}
use claw.Store.Stamp.{text_lt, stamp_lt}

-- A row goes before the first row that is not strictly before it, so equal rows keep their order.
unfoldable pub insert_by {ℓ} : {A : Type ℓ} → (A → A → Bool) → A → List A → List A
insert_by lt x [] = x ∷ []
insert_by lt x (y ∷ ys) = if lt y x then y ∷ insert_by lt x ys else x ∷ y ∷ ys

-- ORDER BY
unfoldable pub order_by {ℓ} : {A : Type ℓ} → (A → A → Bool) → List A → List A
unfolding insert_by
order_by lt [] = []
order_by lt (x ∷ xs) = insert_by lt x (order_by lt xs)

-- WHERE discord_user_id = ? AND task_id = ?
abbrev pub is_task : Text → Text → Task → Bool
is_task user_id task_id row = text_eq row.discord_user_id user_id && text_eq row.task_id task_id

abbrev pub or_now : Time → Time → Time
or_now now t = if is_zero t then now else t

abbrev or_open : TaskStatus → TaskStatus
or_open TaskStatus.unset = opened
or_open s = s

abbrev or_pending : TaskWorktreeStatus → TaskWorktreeStatus
or_pending TaskWorktreeStatus.unset = pending
or_pending s = s

-- The defaults of `CreateTask` and `UpdateTask`.
unfoldable pub with_defaults : Unicode → Time → Task → Task
with_defaults u now task = record task {
  updated_at = or_now now task.updated_at;
  status = or_open task.status;
  branch_name =
      if is_empty task.branch_name
      then default_task_branch_name u task.task_name task.task_id
      else task.branch_name;
  worktree_status = or_pending task.worktree_status;
}

-- task_id is the primary key.
unfoldable pub insert_task : Task → Action Store (Unit {0})
insert_task task s = elim (first (λ row. text_eq row.task_id task.task_id) s.tables.tasks) [
  | some row ↦ fail (message (codes "UNIQUE constraint failed: tasks.task_id")) s
  | none ↦ exec (λ t. record t { tasks = t.tasks ++ task ∷ [] }) s
]

unfoldable pub create_task : Unicode → Task → Action Store (Unit {0})
create_task u task = do
  now ← clock
  let task' = with_defaults u now (record task { created_at = or_now now task.created_at })
  or_wrap (codes "create task") (driver >> insert_task task')

-- SET …: the columns but the keys and created_at
abbrev pub changed : Task → Task → Task
changed task row = record task {
  discord_user_id = row.discord_user_id;
  task_id = row.task_id;
  created_at = row.created_at;
}

unfoldable pub change_task : Task → List Task → List Task
change_task task =
    map (λ row. if is_task task.discord_user_id task.task_id row then changed task row else row)

-- The error for no row affected.
unfoldable pub require_row : Text → Text → Action Store (Unit {0})
require_row user_id task_id s = elim (first (is_task user_id task_id) s.tables.tasks) [
  | none ↦ fail (sentinel no_rows) s
  | some row ↦ succeed tt s
]

unfoldable pub update_task : Unicode → Task → Action Store (Unit {0})
update_task u task = do
  now ← clock
  let task' = with_defaults u now task
  or_wrap (codes "update task") driver
  exec (λ t. record t { tasks = change_task task' t.tasks })
  require_row task.discord_user_id task.task_id

unfoldable pub get_task : Text → Text → Action Store (Option Task)
get_task user_id task_id = do
  or_wrap (codes "scan task") driver
  query (λ t. first (is_task user_id task_id) t.tasks)

unfoldable pub open_tasks : Text → List Task → List Task
unfolding order_by
open_tasks user_id rows =
    order_by (λ a b. stamp_lt a.created_at b.created_at)
      (select (λ row. text_eq row.discord_user_id user_id && is_open row.status) rows)

unfoldable pub list_open_tasks : Text → Action Store (List Task)
list_open_tasks user_id = do
  or_wrap (codes "query open tasks") driver
  query (λ t. open_tasks user_id t.tasks)

unfoldable pub has_closed_task_with_name : Text → Text → Action Store Bool
has_closed_task_with_name user_id task_name = do
  or_wrap (codes "query closed task by name") driver
  query (λ t.
      elim (first
        (λ row.
          text_eq row.discord_user_id user_id
          && (text_eq row.task_name task_name && is_closed row.status))
        t.tasks) [ none ↦ false | some row ↦ true ])

-- closed_at DESC, task_id ASC
abbrev closed_before : Task → Task → Bool
closed_before a b = elim a.closed_at [
  | none ↦ false
  | some s ↦ elim b.closed_at [
    | none ↦ true
    | some t ↦ stamp_lt t s || (not (stamp_lt s t) && text_lt a.task_id b.task_id)
  ]
]

abbrev is_some {ℓ} : {A : Type ℓ} → Option A → Bool
is_some none = false
is_some (some a) = true

unfoldable pub list_closed_ready_tasks : Action Store (List Task)
list_closed_ready_tasks = do
  or_wrap (codes "query closed ready tasks") driver
  query (λ t. order_by closed_before (
      select
        (λ row. is_closed row.status && (is_ready row.worktree_status && is_some row.closed_at))
        t.tasks))

-- The table of active tasks, keyed by the user.
abbrev pub is_user : Text → ActiveTask → Bool
is_user user_id row = text_eq row.discord_user_id user_id

-- INSERT … ON CONFLICT(discord_user_id) DO UPDATE
unfoldable pub upsert_active : ActiveTask → List ActiveTask → List ActiveTask
upsert_active a [] = a ∷ []
upsert_active a (row ∷ rows) =
    if is_user a.discord_user_id row then a ∷ rows else row ∷ upsert_active a rows

unfoldable pub set_active_task : ActiveTask → Action Store (Unit {0})
set_active_task active = do
  now ← clock
  let active' = record active { updated_at = or_now now active.updated_at }
  or_wrap (codes "set active task") driver
  exec (λ t. record t { active_tasks = upsert_active active' t.active_tasks })

unfoldable pub get_active_task : Text → Action Store (Option ActiveTask)
get_active_task user_id = do
  or_wrap (codes "scan active task") driver
  query (λ t. first (is_user user_id) t.active_tasks)

unfoldable pub clear_active_task : Text → Action Store (Unit {0})
clear_active_task user_id = do
  or_wrap (codes "clear active task") driver
  exec (λ t. record t { active_tasks = select (λ row. not (is_user user_id row)) t.active_tasks })

-- UPDATE tasks SET status, updated_at, closed_at
unfoldable pub close_rows : Time → Text → Text → List Task → List Task
close_rows now user_id task_id = map (λ row.
    if is_task user_id task_id row
    then record row { status = closed; updated_at = now; closed_at = some now }
    else row)

-- DELETE FROM active_tasks WHERE discord_user_id = ? AND task_id = ?
unfoldable pub drop_active : Text → Text → List ActiveTask → List ActiveTask
drop_active user_id task_id =
    select (λ row. not (is_user user_id row && text_eq row.task_id task_id))

unfoldable pub close_task : Text → Text → Action Store (Unit {0})
unfolding transaction
close_task user_id task_id = do
  now ← clock
  or_wrap (codes "begin close task transaction") driver
  transaction (do
    or_wrap (codes "update task status") driver
    exec (λ t. record t { tasks = close_rows now user_id task_id t.tasks })
    require_row user_id task_id
    or_wrap (codes "delete active task") driver
    exec (λ t. record t { active_tasks = drop_active user_id task_id t.active_tasks })
    or_wrap (codes "commit close task transaction") driver)
