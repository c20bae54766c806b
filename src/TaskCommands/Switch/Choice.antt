-- ===== src/TaskCommands/Switch/Choice.antt =====
-- internal/app/task_service.go: which task a switch chooses, over the SQLite store.
use claw.Prelude.{
  ◌≡◌, refl, ◌⊎◌, inl, inr, Bool, true, false, Option, none, some, List, [], ◌∷◌, arith, first,
  select, Bool-cases,
}
use claw.Prelude.Text.{Text, codes, text_eq, text_eq_iff, is_empty, trim_space}
use claw.Errors.{Result, ok}
use claw.Types.{Time, MessageResponse, Task, ActiveTask, is_open}
use claw.TaskBranch.{Unicode}
use claw.Store.{Tables, Store, quiet, driver, query, exec, clock}
use claw.Store.Tasks.{
  open_tasks, list_open_tasks, get_task, set_active_task, upsert_active, is_user,
}
use claw.Store.Tasks.Closing.{task_of, active_of}
use claw.Services.{sqlite_store}
use claw.TaskCommands.Create.Naming.{first-upsert_active}
use claw.TaskCommands.{task_command_response}
use claw.TaskCommands.Switch.{
  task_selector_required_message, not_found_message, ambiguous_message, closed_message, choice_of,
  loaded, switched_message, load_open_task_by_selector, switch_to, switch_selected, switch_trimmed,
  switch,
}

first-upsert_active_other :
    (user : Text) (a : ActiveTask) (rows : List ActiveTask)
    → text_eq a.discord_user_id user ≡ false
    → first (is_user user) (upsert_active a rows) ≡ first (is_user user) rows
unfolding first upsert_active
first-upsert_active_other user a [] h = rw h refl
first-upsert_active_other user a (row ∷ rows) h = ground (
  arith,
  text_eq_iff a.discord_user_id user,
  text_eq_iff row.discord_user_id a.discord_user_id,
  text_eq_iff row.discord_user_id user,
  first-upsert_active_other user a rows h,
)

module _ (u : Unicode) (equal_fold : Text → Text → Bool) (c : Text) (user_id : Text) (t : Tables)
    (now : Time) where
  -- The task that the id, or else the name, selects.
  abbrev pub Selects : Text → Text → Task → Type 0
  Selects task_id name task =
      ((is_empty task_id ≡ false) × (task_of user_id task_id t ≡ some task))
      ⊎ ((is_empty task_id ≡ true)
          × (select (λ row. equal_fold row.task_name name) (open_tasks user_id t.tasks)
              ≡ task ∷ []))

  abbrev pub rows_named : Text → List Task
  rows_named name = select (λ row. equal_fold row.task_name name) (open_tasks user_id t.tasks)

  -- What the user is told when no task is selected, for the command `action`.
  pub data Unselected (action task_id name : Text) : Text → Type 0 where
    blank :
        is_empty task_id ≡ true
        → is_empty name ≡ true
        → Unselected action task_id name (task_selector_required_message c)
    no_id :
        is_empty task_id ≡ false
        → task_of user_id task_id t ≡ none
        → Unselected action task_id name (not_found_message c task_id name)
    no_name :
        is_empty task_id ≡ true
        → is_empty name ≡ false
        → rows_named name ≡ []
        → Unselected action task_id name (not_found_message c task_id name)
    many :
        (a b : Task) (rest : List Task)
        → is_empty task_id ≡ true
        → is_empty name ≡ false
        → rows_named name ≡ a ∷ b ∷ rest
        → Unselected action task_id name (ambiguous_message c action name (a ∷ b ∷ rest))

  -- The ways the command ends while the driver goes through.
  pub data Switches (task_id name : Text) : Result MessageResponse × Store → Type 0 where
    told :
        (text : Text)
        → Unselected (codes "task-switch") task_id name text
        → Switches task_id name (ok (task_command_response text), quiet t now)
    not_open :
        (task : Task)
        → Selects task_id name task
        → is_open task.status ≡ false
        → Switches task_id name (ok (task_command_response (closed_message c task_id)), quiet t now)
    switched :
        (task : Task) (t' : Tables)
        → Selects task_id name task
        → is_open task.status ≡ true
        → t'.tasks ≡ t.tasks
        → active_of user_id t'
          ≡ some (record { discord_user_id = user_id; task_id = task.task_id; updated_at = now })
        → ((user : Text) → text_eq user_id user ≡ false → active_of user t' ≡ active_of user t)
        → Switches task_id name (ok (task_command_response (switched_message task)), quiet t' now)

  switch_to-Switches :
      (task_id name : Text) (task : Task)
      → Selects task_id name task
      → Switches task_id name
          (switch_to (sqlite_store u) equal_fold c user_id task_id task (quiet t now))
  unfolding switch_to set_active_task clock driver exec active_of
  switch_to-Switches task_id name task s = elim (Bool-cases (is_open task.status)) [
    | inl h ↦ rw h (
        switched task _ s h refl (first-upsert_active _ t.active_tasks)
          (λ user other. first-upsert_active_other user _ t.active_tasks other))
    | inr h ↦ rw h (not_open task s h)
  ]

  by_name-Switches :
      (task_id name : Text) (rows : List Task)
      → is_empty task_id ≡ true
      → is_empty name ≡ false
      → rows_named name ≡ rows
      → Switches task_id name (
          switch_selected
            (sqlite_store u)
            equal_fold
            c
            user_id
            task_id
            name
            (choice_of c (codes "task-switch") name rows)
            (quiet t now))
  unfolding switch_selected
  by_name-Switches task_id name [] h n e = told _ (no_name h n e)
  by_name-Switches task_id name (task ∷ []) h n e =
      switch_to-Switches task_id name task (inr (h, e))
  by_name-Switches task_id name (a ∷ b ∷ rest) h n e = told _ (many a b rest h n e)

  by_id-Switches :
      (task_id name : Text) (o : Option Task)
      → is_empty task_id ≡ false
      → task_of user_id task_id t ≡ o
      → Switches task_id name (
          switch_selected
            (sqlite_store u)
            equal_fold
            c
            user_id
            task_id
            name
            (loaded o)
            (quiet t now))
  unfolding switch_selected
  by_id-Switches task_id name none h e = told _ (no_id h e)
  by_id-Switches task_id name (some task) h e = switch_to-Switches task_id name task (inl (h, e))

  switch_trimmed-Switches :
      (task_id name : Text)
      → Switches task_id name
          (switch_trimmed (sqlite_store u) equal_fold c user_id task_id name (quiet t now))
  unfolding switch_trimmed load_open_task_by_selector list_open_tasks get_task driver query task_of
  switch_trimmed-Switches task_id name = elim (Bool-cases (is_empty task_id)) [
    | inr h ↦ rw h (by_id-Switches task_id name _ h refl)
    | inl h ↦ rw h (elim (Bool-cases (is_empty name)) [
      | inl k ↦ rw k (told _ (blank h k))
      | inr k ↦ rw k (by_name-Switches task_id name _ h k refl)
    ])
  ]

  -- While the driver goes through, switching the task changes nothing and says why: a selector is
  -- required when there is neither an id nor a name, the task is not found when no task has the id or,
  -- without an id, no open one has the name, the name is ambiguous when several open ones have it, and
  -- the task is closed when the one selected is not open. Else the task selected is open and becomes
  -- the user's active task, while the tasks and the active tasks of other users stay.
  pub switch-Switches :
      (task_id task_name : Text)
      → Switches
          (trim_space task_id)
          (trim_space task_name)
          (switch (sqlite_store u) equal_fold c user_id task_id task_name (quiet t now))
  unfolding switch
  switch-Switches task_id task_name =
      switch_trimmed-Switches (trim_space task_id) (trim_space task_name)
