-- ===== src/Store/Tasks/Closing.antt =====
-- What `CloseTask` does to the tables.
use claw.Prelude.{
  ◌≡◌, refl, ap, ◌∙◌, ◌⊎◌, inl, inr, ◌&&◌, Option, none, some, List, [], ◌∷◌, arith, if◌then◌else◌,
  first, select, Option-cases,
}
use claw.Prelude.Text.{Text, text_eq, text_eq_iff, text_eq_refl}
use claw.Errors.{Error, sentinel, no_rows, Result, Action, ◌>>◌, ok, err}
use claw.Types.{Time, Task, closed, ActiveTask}
use claw.Store.{
  Tables, Store, driver, exec, clock, transaction, rolled_back, driver_rule, driver_last, quiet,
}
use claw.Store.Tasks.{is_task, is_user, require_row, close_rows, drop_active, close_task}

-- What the tables hold for a user and a task, and the user's active task.
unfoldable pub task_of : Text → Text → Tables → Option Task
task_of user_id task_id t = first (is_task user_id task_id) t.tasks

unfoldable pub active_of : Text → Tables → Option ActiveTask
active_of user_id t = first (is_user user_id) t.active_tasks

abbrev pub closed_at_time : Time → Option Task → Option Task
closed_at_time now none = none
closed_at_time now (some row) =
    some (record row { status = closed; updated_at = now; closed_at = some now })

abbrev pub unless_active : Text → Option ActiveTask → Option ActiveTask
unless_active task_id none = none
unless_active task_id (some a) = if text_eq a.task_id task_id then none else some a

abbrev after_close : Time → Text → Text → Tables → Tables
after_close now user_id task_id t = record t {
  tasks = close_rows now user_id task_id t.tasks;
  active_tasks = drop_active user_id task_id t.active_tasks;
}

-- A result of `CloseTask`: an error with the tables as they were, or success where the task is
-- there, with its row closed and the row of the active task gone.
pub data Closes (user_id task_id : Text) (s : Store) (r : Result (Unit {0}) × Store) : Type 0 where
  fails : (e : Error) → r.0 ≡ err e → r.1.tables ≡ s.tables → Closes user_id task_id s r
  succeeds :
      (row : Task)
      → r.0 ≡ ok tt
      → task_of user_id task_id s.tables ≡ some row
      → r.1.tables ≡ after_close s.now user_id task_id s.tables
      → Closes user_id task_id s r

pub task_of-close_rows :
    (now : Time) (user_id task_id user task : Text) (rows : List Task)
    → first (is_task user task) (close_rows now user_id task_id rows) ≡ (
        if text_eq user_id user && text_eq task_id task
        then closed_at_time now (first (is_task user task) rows)
        else first (is_task user task) rows)
unfolding close_rows first
task_of-close_rows now user_id task_id user task [] = ground arith
task_of-close_rows now user_id task_id user task (row ∷ rows) = ground (
  arith,
  text_eq_iff user_id user,
  text_eq_iff task_id task,
  text_eq_iff row.discord_user_id user_id,
  text_eq_iff row.task_id task_id,
  text_eq_iff row.discord_user_id user,
  text_eq_iff row.task_id task,
  task_of-close_rows now user_id task_id user task rows,
)

-- The primary key of the table of active tasks: one row for each user.
abbrev pub IsKeyed : List ActiveTask → Type 0
IsKeyed [] = Unit
IsKeyed (row ∷ rows) = (first (is_user row.discord_user_id) rows ≡ none) × IsKeyed rows

drop_active_absent :
    (user_id task_id user : Text) (rows : List ActiveTask)
    → first (is_user user) rows ≡ none
    → first (is_user user) (drop_active user_id task_id rows) ≡ none
unfolding drop_active first select
drop_active_absent user_id task_id user [] h = refl
drop_active_absent user_id task_id user (row ∷ rows) h =
    ground (arith, drop_active_absent user_id task_id user rows)

pub active_of-drop_active :
    (user_id task_id user : Text) (rows : List ActiveTask)
    → IsKeyed rows
    → first (is_user user) (drop_active user_id task_id rows) ≡ (
        if text_eq user_id user
        then unless_active task_id (first (is_user user) rows)
        else first (is_user user) rows)
unfolding drop_active first select
active_of-drop_active user_id task_id user [] h = ground arith
active_of-drop_active user_id task_id user (row ∷ rows) (fresh, h) = ground (
  arith,
  text_eq_iff user_id user,
  text_eq_iff row.discord_user_id user_id,
  text_eq_iff row.discord_user_id user,
  drop_active_absent user_id task_id row.discord_user_id rows,
  active_of-drop_active user_id task_id user rows h,
)

row_rule {κ} :
    (P : Result (Unit {0}) × Store → Type κ) (user_id task_id : Text) (k : Action Store (Unit {0}))
    (s : Store)
    → (task_of user_id task_id s.tables ≡ none → P (err (sentinel no_rows), s))
    → ((row : Task) → task_of user_id task_id s.tables ≡ some row → P (k s))
    → P ((require_row user_id task_id >> k) s)
unfolding require_row task_of
row_rule P user_id task_id k s missing found =
    elim (Option-cases (first (is_task user_id task_id) s.tables.tasks)) [
      | inl e ↦ rw (e, require_row) (missing e)
      | inr (row, e) ↦ rw (e, require_row) (found row e)
    ]

-- The row that the update found was there before it.
row_before :
    (now : Time) (user_id task_id : Text) (t : Tables) (row : Task)
    → task_of user_id task_id (record t { tasks = close_rows now user_id task_id t.tasks })
      ≡ some row
    → (old : Task) × (task_of user_id task_id t ≡ some old)
unfolding task_of
row_before now user_id task_id t row e =
    elim (Option-cases (first (is_task user_id task_id) t.tasks)) [
      | inl gone ↦
          absurd (ground (arith, task_of-close_rows now user_id task_id user_id task_id t.tasks))
      | inr old ↦ old
    ]

close_task-Closes :
    (user_id task_id : Text) (s : Store) → Closes user_id task_id s (close_task user_id task_id s)
unfolding close_task clock transaction exec
close_task-Closes user_id task_id s =
    driver_rule (Closes user_id task_id s) _ _ s
      (λ s1 t1 n1.
        driver_rule (λ r. Closes user_id task_id s (rolled_back s1.tables r)) _ _ s1
          (λ s2 t2 n2.
            row_rule (λ r. Closes user_id task_id s (rolled_back s1.tables r)) user_id task_id _ _
              (λ e. fails _ refl t1)
              (λ row e.
                let (old, was) =
                  row_before s.now user_id task_id s.tables row (rw (← t1, ← t2) e) in
                driver_rule (λ r. Closes user_id task_id s (rolled_back s1.tables r)) _ _ _
                  (λ s3 t3 n3.
                    driver_last (λ r. Closes user_id task_id s (rolled_back s1.tables r)) _ _
                      (λ s4 t4 n4. succeeds old refl was (
                        t4
                        ∙ ap {A = Tables} {B = Tables}
                            (λ t. record t {
                              active_tasks = drop_active user_id task_id t.active_tasks;
                            })
                            (t3
                              ∙ ap {A = Tables} {B = Tables}
                                  (λ t. record t {
                                    tasks = close_rows s.now user_id task_id t.tasks;
                                  })
                                  (t2 ∙ t1))))
                      (λ x s' t. fails _ refl t1))
                  (λ x s' t. fails _ refl t1)))
          (λ e s' t. fails _ refl t1))
      (λ e s' t. fails _ refl t)

-- An error with the tables as they were; or the task was there, and its row is closed at the time
-- of the clock, no other task has changed, and the choices of an active task are those that were
-- there, without this task.
abbrev pub ClosedOrUnchanged : Text → Text → Store → Result (Unit {0}) × Store → Type 0
ClosedOrUnchanged user_id task_id s r =
    ((e : Error) × (r.0 ≡ err e) × (r.1.tables ≡ s.tables))
    ⊎ ((row : Task) × (r.0 ≡ ok tt)
        × (task_of user_id task_id s.tables ≡ some row)
        × ((user task : Text)
            → task_of user task r.1.tables ≡ (
                if text_eq user_id user && text_eq task_id task
                then closed_at_time s.now (task_of user task s.tables)
                else task_of user task s.tables))
        × ((user : Text)
            → active_of user r.1.tables ≡ (
                if text_eq user_id user
                then unless_active task_id (active_of user s.tables)
                else active_of user s.tables)))

Closes-ClosedOrUnchanged :
    (user_id task_id : Text) (s : Store) (r : Result (Unit {0}) × Store)
    → IsKeyed s.tables.active_tasks
    → Closes user_id task_id s r
    → ClosedOrUnchanged user_id task_id s r
unfolding task_of active_of
Closes-ClosedOrUnchanged user_id task_id s r keyed (fails e h same) = inl (e, h, same)
Closes-ClosedOrUnchanged user_id task_id s r keyed (succeeds row h was now) = inr (
  row,
  h,
  was,
  λ user task. rw now (task_of-close_rows s.now user_id task_id user task s.tables.tasks),
  λ user. rw now (active_of-drop_active user_id task_id user s.tables.active_tasks keyed),
)

-- Let the table of active tasks have one row for each user.
-- Closing a task either fails and changes no table, or the task was there and afterwards it is
-- closed at the time of the clock, no other task has changed, and it is no longer the user's
-- active task while every other choice of an active task stays.
pub close_task_lem :
    (user_id task_id : Text) (s : Store)
    → IsKeyed s.tables.active_tasks
    → ClosedOrUnchanged user_id task_id s (close_task user_id task_id s)
close_task_lem user_id task_id s keyed =
    Closes-ClosedOrUnchanged user_id task_id s _ keyed (close_task-Closes user_id task_id s)

pub closed_row :
    (user_id task_id : Text) (now : Time) (t : Tables) (o : Option Task)
    → first (is_task user_id task_id) t.tasks ≡ o
    → first (is_task user_id task_id) (close_rows now user_id task_id t.tasks)
      ≡ closed_at_time now o
closed_row user_id task_id now t o e =
    rw (task_of-close_rows, text_eq_refl user_id, text_eq_refl task_id, e)

-- While the driver goes through, closing a task succeeds exactly if the task is there, and else
-- fails with the error for no rows.
pub close_task_total :
    (user_id task_id : Text) (t : Tables) (now : Time)
    → ((row : Task) × (task_of user_id task_id t ≡ some row)
        × ((close_task user_id task_id (quiet t now)).0 ≡ ok tt))
      ⊎ ((task_of user_id task_id t ≡ none)
          × ((close_task user_id task_id (quiet t now)).0 ≡ err (sentinel no_rows)))
unfolding close_task clock transaction exec driver require_row task_of first close_rows
close_task_total user_id task_id t now =
    elim (Option-cases (first (is_task user_id task_id) t.tasks)) [
      | inl e ↦ inr (e, rw (closed_row user_id task_id now t none e))
      | inr (row, e) ↦ inl (row, e, rw (closed_row user_id task_id now t (some row) e))
    ]
