-- ===== src/TaskCommands/Create/Naming.antt =====
-- internal/app/task_service.go: what creating a task does, over the SQLite store.
use claw.Prelude.{
  ◌≡◌, ◌≢◌, refl, ap, ◌∙◌, inl, inr, Bool, true, ◌&&◌, Option, none, some, List, [], ◌∷◌, ◌++◌,
  arith, first, select, Bool-cases, Option-cases,
}
use claw.Prelude.Text.{Text, codes, text_eq, text_eq_refl, is_empty, is_empty_iff, trim_space}
use claw.Errors.{Error, Result, ok, err, wrap, message}
use claw.Types.{Time, MessageResponse, Task, ActiveTask, is_open}
use claw.TaskName.{validate_task_name}
use claw.TaskBranch.{Unicode}
use claw.Store.{Tables, Store, quiet, driver, query, exec, clock}
use claw.Store.Stamp.{stamp_lt}
use claw.Store.Tasks.{
  with_defaults, insert_task, create_task, set_active_task, upsert_active, open_tasks,
  list_open_tasks, is_user, order_by,
}
use claw.Store.Tasks.Closing.{active_of}
use claw.Store.Tasks.Selection.{select-order_by-none, select-order_by-append}
use claw.Services.{sqlite_store}
use claw.Policy.Overrides.{named}
use claw.TaskCommands.{task_command_response}
use claw.TaskCommands.Create.{
  task_name_rules_description, task_name_required_message, already_exists_message, created_message,
  new_task, activation, is_named, store_new, create_unless, create_valid, create_named, create,
}

-- The row of the new task, and the tables with it.
abbrev pub new_row : Unicode → Time → Task → Task
new_row u now task = with_defaults u now (record task { created_at = now })

abbrev pub with_task_row : Unicode → Time → Task → Tables → Tables
with_task_row u now task t = record t {
  tasks = t.tasks ++ new_row u now task ∷ [];
  active_tasks = upsert_active (record (activation task) { updated_at = now }) t.active_tasks;
}

-- The ways the command ends while the driver goes through; `name` is the name with white space trimmed.
pub data Creates (u : Unicode) (command_name task_id user_id name : Text) (t : Tables) (now : Time)
    : Result MessageResponse × Store → Type 0 where
  unnamed :
      name ≡ []
      → Creates u command_name task_id user_id name t now
          (ok (task_command_response (task_name_required_message command_name)), quiet t now)
  invalid :
      validate_task_name name ≢ none
      → Creates u command_name task_id user_id name t now
          (ok (task_command_response task_name_rules_description), quiet t now)
  taken :
      (row : Task) (rows : List Task)
      → named user_id name t ≡ row ∷ rows
      → Creates u command_name task_id user_id name t now
          (ok (task_command_response (already_exists_message command_name name)), quiet t now)
  clash :
      (row : Task) (e : Error)
      → first (λ x. text_eq x.task_id task_id) t.tasks ≡ some row
      → Creates u command_name task_id user_id name t now (err e, quiet t now)
  made :
      validate_task_name name ≡ none
      → named user_id name t ≡ []
      → named user_id name (with_task_row u now (new_task u task_id user_id name) t)
        ≡ new_row u now (new_task u task_id user_id name) ∷ []
      → active_of user_id (with_task_row u now (new_task u task_id user_id name) t)
        ≡ some (record { discord_user_id = user_id; task_id = task_id; updated_at = now })
      → Creates u command_name task_id user_id name t now (
        ok (task_command_response (created_message (new_task u task_id user_id name))),
        quiet (with_task_row u now (new_task u task_id user_id name) t) now,
      )

select-append_one :
    {A : Type 0} (p : A → Bool) (xs : List A) (x : A)
    → p x ≡ true
    → select p (xs ++ x ∷ []) ≡ select p xs ++ x ∷ []
unfolding select
select-append_one p [] x h = rw h refl
select-append_one p (y ∷ ys) x h = ground (arith, select-append_one p ys x h)

-- A new open task under a name that no open task of the user has is the only one with the name.
named-append :
    (user_id name : Text) (rows : List Task) (row : Task)
    → (text_eq row.discord_user_id user_id && is_open row.status) ≡ true
    → is_named name row ≡ true
    → select (is_named name) (open_tasks user_id rows) ≡ []
    → select (is_named name) (open_tasks user_id (rows ++ row ∷ [])) ≡ row ∷ []
unfolding open_tasks
named-append user_id name rows row mine called none_yet =
    ap (λ xs. select (is_named name) (order_by older xs)) (select-append_one of_user rows row mine)
    ∙ select-order_by-append older (is_named name) (select of_user rows) row called
        (select-order_by-none older (is_named name) (select of_user rows) none_yet)
  where
    older : Task → Task → Bool
    older a b = stamp_lt a.created_at b.created_at

    of_user : Task → Bool
    of_user row = text_eq row.discord_user_id user_id && is_open row.status

pub first-upsert_active :
    (a : ActiveTask) (rows : List ActiveTask)
    → first (is_user a.discord_user_id) (upsert_active a rows) ≡ some a
unfolding first upsert_active
first-upsert_active a [] = rw (text_eq_refl a.discord_user_id) refl
first-upsert_active a (row ∷ rows) = elim (Bool-cases (is_user a.discord_user_id row)) [
  | inl h ↦ rw (h, text_eq_refl a.discord_user_id) refl
  | inr h ↦ rw (h, h) (first-upsert_active a rows)
]

store_new-free :
    (u : Unicode) (task_id user_id name : Text) (t : Tables) (now : Time)
    → first (λ row. text_eq row.task_id task_id) t.tasks ≡ none
    → store_new (sqlite_store u) (new_task u task_id user_id name) (quiet t now) ≡ (
      ok (task_command_response (created_message (new_task u task_id user_id name))),
      quiet (with_task_row u now (new_task u task_id user_id name) t) now,
    )
unfolding store_new create_task insert_task set_active_task clock driver exec with_defaults new_task
store_new-free u task_id user_id name t now free = rw (free, insert_task) refl

store_new-clash :
    (u : Unicode) (task_id user_id name : Text) (row : Task) (t : Tables) (now : Time)
    → first (λ row. text_eq row.task_id task_id) t.tasks ≡ some row
    → store_new (sqlite_store u) (new_task u task_id user_id name) (quiet t now) ≡ (
      err (
          wrap (codes "create task") (
            wrap
              (codes "create task")
              (message (codes "UNIQUE constraint failed: tasks.task_id")))),
      quiet t now,
    )
unfolding store_new create_task insert_task set_active_task clock driver exec with_defaults new_task
store_new-clash u task_id user_id name row t now taken_id = rw (taken_id, insert_task) refl

module _ (u : Unicode) (command_name task_id user_id name : Text) (t : Tables) (now : Time) where
  store_new-Creates :
      validate_task_name name ≡ none
      → named user_id name t ≡ []
      → Creates u command_name task_id user_id name t now
          (store_new (sqlite_store u) (new_task u task_id user_id name) (quiet t now))
  unfolding new_task active_of with_defaults
  store_new-Creates valid none_yet =
      elim (Option-cases (first (λ row. text_eq row.task_id task_id) t.tasks)) [
        | inl free ↦ rw (store_new-free u task_id user_id name t now free) (
            made valid none_yet
              (named-append user_id name t.tasks (new_row u now (new_task u task_id user_id name))
                (rw (text_eq_refl user_id) refl) (text_eq_refl name) none_yet)
              (first-upsert_active _ t.active_tasks))
        | inr (row, same) ↦
            rw (store_new-clash u task_id user_id name row t now same) (clash row _ same)
      ]

  create_unless-Creates :
      (rows : List Task)
      → validate_task_name name ≡ none
      → named user_id name t ≡ rows
      → Creates u command_name task_id user_id name t now (
          create_unless
            (sqlite_store u)
            command_name
            name
            (new_task u task_id user_id name)
            rows
            (quiet t now))
  create_unless-Creates [] valid e = store_new-Creates valid e
  create_unless-Creates (row ∷ rows) valid e = taken row rows e

  create_valid-Creates :
      (o : Option Error)
      → validate_task_name name ≡ o
      → Creates u command_name task_id user_id name t now (
          create_valid
            (sqlite_store u)
            command_name
            name
            (new_task u task_id user_id name)
            o
            (quiet t now))
  unfolding new_task list_open_tasks driver query
  create_valid-Creates (some e) h = invalid (λ n. absurd (ground (arith, h, n)))
  create_valid-Creates none h = create_unless-Creates (named user_id name t) h refl

  create_named-Creates :
      Creates u command_name task_id user_id name t now
        (create_named (sqlite_store u) u command_name task_id user_id name (quiet t now))
  unfolding create_named
  create_named-Creates = elim (Bool-cases (is_empty name)) [
    | inl h ↦ rw h (unnamed ((is_empty_iff name).0 h))
    | inr h ↦ rw h (create_valid-Creates (validate_task_name name) refl)
  ]

-- While the driver goes through, creating a task tells that a name is required, that it is not valid or
-- that an open task of the user has it, or is refused for an id that is there, and changes nothing; or
-- the task is the one open task of the user with the name, and it is the user's active task.
pub create-Creates :
    (u : Unicode) (command_name task_id user_id task_name : Text) (t : Tables) (now : Time)
    → Creates u command_name task_id user_id
        (trim_space task_name)
        t
        now
        (create (sqlite_store u) u command_name task_id user_id task_name (quiet t now))
unfolding create
create-Creates u command_name task_id user_id task_name t now =
    create_named-Creates u command_name task_id user_id (trim_space task_name) t now
