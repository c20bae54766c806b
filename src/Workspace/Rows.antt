-- ===== src/Workspace/Rows.antt =====
-- What storing a task does to its row and to the other rows.
use claw.Prelude.{
  ◌≡◌, refl, sym, ap, ◌∙◌, inl, inr, true, false, ◌&&◌, Option, none, some, List, [], ◌∷◌, arith,
  first, Bool-cases, Option-cases,
}
use claw.Prelude.Text.{Text, text_eq, text_eq_iff}
use claw.Errors.{ok, err, sentinel, no_rows}
use claw.Types.{Task, TaskWorktreeStatus}
use claw.TaskBranch.{Unicode}
use claw.Store.{Store, exec, clock}
use claw.Store.Tasks.{is_task, with_defaults, changed, change_task, require_row, update_task}
use claw.Store.Scheduled.Runs.{first-cons_false}
use claw.Store.Scheduled.Placed.{some-inj, first-cons_true}
use claw.Store.Scheduled.Admission.{IsThrough, driver-through}

-- The row of a task.
abbrev pub row_of : Text → Text → Store → Option Task
row_of user_id task_id s = first (is_task user_id task_id) s.tables.tasks

-- Another key.
abbrev pub IsOther : Text → Text → Text → Text → Type 0
IsOther owner id user_id task_id = (text_eq owner user_id && text_eq id task_id) ≡ false

-- One row of the statement.
change_task_hit :
    (task r : Task) (rows : List Task)
    → is_task task.discord_user_id task.task_id r ≡ true
    → change_task task (r ∷ rows) ≡ changed task r ∷ change_task task rows
unfolding change_task
change_task_hit task r rows h = rw h refl

change_task_miss :
    (task r : Task) (rows : List Task)
    → is_task task.discord_user_id task.task_id r ≡ false
    → change_task task (r ∷ rows) ≡ r ∷ change_task task rows
unfolding change_task
change_task_miss task r rows h = rw h refl

change_task-found :
    (task row : Task) (rows : List Task)
    → first (is_task task.discord_user_id task.task_id) rows ≡ some row
    → first (is_task task.discord_user_id task.task_id) (change_task task rows)
      ≡ some (changed task row)
change_task-found task row [] h = unfold first in cc
change_task-found task row (r ∷ rows) h =
    let p = is_task task.discord_user_id task.task_id in
    elim (Bool-cases (p r)) [
      | inl e ↦
          let same : r ≡ row = some-inj (sym (first-cons_true p r rows e) ∙ h) in
          ap (first p) (change_task_hit task r rows e)
          ∙ first-cons_true p (changed task r) (change_task task rows) e
          ∙ ap (λ x. some (changed task x)) same
      | inr e ↦
          ap (first p) (change_task_miss task r rows e)
          ∙ first-cons_false p r (change_task task rows) e
          ∙ change_task-found task row rows (sym (first-cons_false p r rows e) ∙ h)
    ]

other-false :
    (task r : Task) (user_id task_id : Text)
    → IsOther task.discord_user_id task.task_id user_id task_id
    → is_task task.discord_user_id task.task_id r ≡ true
    → is_task user_id task_id r ≡ false
other-false task r user_id task_id h e =
    ground (
      arith,
      text_eq_iff r.discord_user_id task.discord_user_id,
      text_eq_iff r.task_id task.task_id,
    )

change_task-other :
    (task : Task) (user_id task_id : Text) (rows : List Task)
    → IsOther task.discord_user_id task.task_id user_id task_id
    → first (is_task user_id task_id) (change_task task rows) ≡ first (is_task user_id task_id) rows
change_task-other task user_id task_id [] h = unfold change_task in refl
change_task-other task user_id task_id (r ∷ rows) h =
    let p = is_task user_id task_id in
    elim (Bool-cases (is_task task.discord_user_id task.task_id r)) [
      | inl e ↦
          let off = other-false task r user_id task_id h e in
          ap (first p) (change_task_hit task r rows e)
          ∙ first-cons_false p (changed task r) (change_task task rows) off
          ∙ change_task-other task user_id task_id rows h
          ∙ sym (first-cons_false p r rows off)
      | inr e ↦ ap (first p) (change_task_miss task r rows e) ∙ elim (Bool-cases (p r)) [
        | inl y ↦ first-cons_true p r _ y ∙ sym (first-cons_true p r rows y)
        | inr n ↦
            first-cons_false p r (change_task task rows) n
            ∙ change_task-other task user_id task_id rows h
            ∙ sym (first-cons_false p r rows n)
      ]
    ]

-- The defaults keep the key.
stays :
    (u : Unicode) (task row : Task) (s : Store)
    → row_of task.discord_user_id task.task_id s ≡ some row
    → first
        (is_task task.discord_user_id task.task_id)
        (change_task (with_defaults u s.now task) s.tables.tasks)
      ≡ some (changed (with_defaults u s.now task) row)
unfolding with_defaults
stays u task row s found = change_task-found (with_defaults u s.now task) row s.tables.tasks found

kept :
    (u : Unicode) (task : Task) (s : Store) (user_id task_id : Text)
    → IsOther task.discord_user_id task.task_id user_id task_id
    → IsOther
        (with_defaults u s.now task).discord_user_id
        (with_defaults u s.now task).task_id
        user_id
        task_id
unfolding with_defaults
kept u task s user_id task_id h = h

-- What a step leaves alone: the rows of the other tasks, and a driver that goes through.
pub record Spares (owner id : Text) (s t : Store) : Type 0 where
  pub others :
      (user_id task_id : Text)
      → IsOther owner id user_id task_id
      → row_of user_id task_id t ≡ row_of user_id task_id s
  pub through : IsThrough s → IsThrough t

require_row-found :
    (user_id task_id : Text) (row : Task) (s : Store)
    → row_of user_id task_id s ≡ some row
    → require_row user_id task_id s ≡ (ok tt, s)
unfolding require_row
require_row-found user_id task_id row s h = rw (h, require_row) refl

abbrev with_tasks : List Task → Store → Store
with_tasks rows s = record s { tables = record s.tables { tasks = rows } }

-- Storing a task whose row is there gives the row what the task has, and spares the others.
pub update_task-found :
    (u : Unicode) (task row : Task) (s : Store)
    → IsThrough s
    → row_of task.discord_user_id task.task_id s ≡ some row
    → (t : Store) × (update_task u task s ≡ (ok tt, t))
      × (row_of task.discord_user_id task.task_id t
          ≡ some (changed (with_defaults u s.now task) row))
      × Spares task.discord_user_id task.task_id s t
unfolding update_task clock exec
update_task-found u task row s through found =
    let task' = with_defaults u s.now task in
    let t = with_tasks (change_task task' s.tables.tasks) s in
    let there : row_of task.discord_user_id task.task_id t ≡ some (changed task' row) =
      stays u task row s found in
    (
      t,
      rw (driver-through s through)
          (require_row-found task.discord_user_id task.task_id (changed task' row) t there),
      there,
      record {
        others = λ user_id task_id h.
            change_task-other task' user_id task_id s.tables.tasks
              (kept u task s user_id task_id h);
        through = λ h. h;
      },
    )

-- A row of a key, with a worktree that is pruned.
abbrev pub HasStatus : Text → Text → TaskWorktreeStatus → Store → Type 0
HasStatus user_id task_id status s =
    (row : Task) × (row_of user_id task_id s ≡ some row) × (row.worktree_status ≡ status)

change_task-none :
    (task : Task) (rows : List Task)
    → first (is_task task.discord_user_id task.task_id) rows ≡ none
    → first (is_task task.discord_user_id task.task_id) (change_task task rows) ≡ none
change_task-none task [] h = unfold change_task in h
change_task-none task (r ∷ rows) h =
    let p = is_task task.discord_user_id task.task_id in
    elim (Bool-cases (p r)) [
      | inl e ↦ absurd (none-ne-some (sym h ∙ first-cons_true p r rows e))
      | inr e ↦
          ap (first p) (change_task_miss task r rows e)
          ∙ first-cons_false p r (change_task task rows) e
          ∙ change_task-none task rows (sym (first-cons_false p r rows e) ∙ h)
    ]
  where
    none-ne-some : {r : Task} → none ≡ some r → ⊥
    none-ne-some h = cc

require_row-state : (user_id task_id : Text) (s : Store) → (require_row user_id task_id s).1 ≡ s
unfolding require_row
require_row-state user_id task_id s = elim (Option-cases (row_of user_id task_id s)) [
  | inl e ↦ rw (e, require_row) refl
  | inr (row, e) ↦ rw (e, require_row) refl
]

-- Whatever comes back, the rows of the other keys stay, and so does the row of the key where it has
-- the status already that the task has.
pub update_task-row :
    (u : Unicode) (task : Task) (s : Store) (user_id task_id : Text)
    → IsThrough s
    → IsOther task.discord_user_id task.task_id user_id task_id
    → row_of user_id task_id (update_task u task s).1 ≡ row_of user_id task_id s
unfolding update_task clock exec
update_task-row u task s user_id task_id through h = rw (driver-through s through) (
    rw (require_row-state task.discord_user_id task.task_id _) (
      change_task-other (with_defaults u s.now task) user_id task_id s.tables.tasks
        (kept u task s user_id task_id h)))

pub update_task-IsThrough :
    (u : Unicode) (task : Task) (s : Store) → IsThrough s → IsThrough (update_task u task s).1
unfolding update_task clock exec
update_task-IsThrough u task s through =
    rw (driver-through s through)
      (rw (require_row-state task.discord_user_id task.task_id _) through)

pub update_task-missing :
    (u : Unicode) (task : Task) (s : Store)
    → IsThrough s
    → row_of task.discord_user_id task.task_id s ≡ none
    → (update_task u task s).0 ≡ err (sentinel no_rows)
unfolding update_task clock exec
update_task-missing u task s through h =
    rw (driver-through s through)
      (require_row-missing task.discord_user_id task.task_id _ (gone u task s h))
  where
    require_row-missing :
        (user_id task_id : Text) (t : Store)
        → row_of user_id task_id t ≡ none
        → (require_row user_id task_id t).0 ≡ err (sentinel no_rows)
    require_row-missing user_id task_id t e = unfold require_row in rw (e, require_row) refl

    gone :
        (u : Unicode) (task : Task) (s : Store)
        → row_of task.discord_user_id task.task_id s ≡ none
        → row_of task.discord_user_id task.task_id
            (with_tasks (change_task (with_defaults u s.now task) s.tables.tasks) s)
          ≡ none
    gone u task s e =
        unfold with_defaults in change_task-none (with_defaults u s.now task) s.tables.tasks e
