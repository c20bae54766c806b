-- ===== src/TaskCommands/Show/Lines.antt =====
-- internal/app/task_service.go: what the list of the open tasks shows, over the SQLite store.
use mathlib.Core.List.{Mem, mem-cons_self, mem-cons_of_mem}
use claw.Prelude.{
  map, All, arith, sym, ◌≢◌, ◌≡◌, refl, ap, ◌∙◌, ◌⊎◌, inl, inr, Option, List, [], ◌∷◌,
}
use claw.Prelude.Text.{Text, codes}
use claw.Errors.{Error, Result, ok, err, ◌>>=◌, ◌>>◌, or_wrap, wrap, continue_with, succeed}
use claw.Types.{MessageResponse, Task, ActiveTask}
use claw.TaskBranch.{Unicode}
use claw.Store.{Tables, Store, driver, query, driver-cases}
use claw.Store.Tasks.{open_tasks, list_open_tasks, get_active_task}
use claw.Store.Tasks.Closing.{active_of}
use claw.Services.{sqlite_store}
use claw.TaskCommands.{task_command_response}
use claw.TaskCommands.Close.{TaskWorktrees, is_active_task}
use claw.TaskCommands.Show.{
  with_branch, task_line, list_reply, no_open_tasks_message, branch_of, branch_reader, list_lines,
  list_found, list_tasks,
}

-- Reading a branch leaves the tables alone.
abbrev pub Reads : Option (TaskWorktrees Store) → Type 0
Reads worktrees =
    (task : Task) (s : Store) → (branch_of (branch_reader worktrees) task s).1.tables ≡ s.tables

-- The line of a task with its branch.
abbrev pub line_of : Option ActiveTask → Task × Option Text → Text
line_of active (task, branch) = task_line (is_active_task task active) (with_branch task branch)

module _ (worktrees : Option (TaskWorktrees Store)) (t : Tables) where
  -- The branch of a task as it is read, with the tables as they were.
  abbrev pub HasBranch : Task × Option Text → Type 0
  HasBranch (task, branch) =
      (v : Store) × (v.tables ≡ t) × ((branch_of (branch_reader worktrees) task v).0 ≡ ok branch)

  -- Reading the branch of one of the tasks failed.
  abbrev pub NoBranch : List Task → Error → Type 0
  NoBranch tasks e =
      (task : Task) × (v : Store) × Mem task tasks
      × (v.tables ≡ t)
      × ((branch_of (branch_reader worktrees) task v).0 ≡ err e)

  -- Why the command fails, from the store `s`: the call that failed, with its error.
  pub data ListFault (user_id : Text) (s : Store) : Error → Type 0 where
    no_tasks :
        (x : Error) (v : Store)
        → list_open_tasks user_id s ≡ (err x, v)
        → ListFault user_id s (wrap (codes "list open tasks") x)
    no_choice :
        (x : Error) (tasks : List Task) (v w : Store)
        → list_open_tasks user_id s ≡ (ok tasks, v)
        → get_active_task user_id v ≡ (err x, w)
        → ListFault user_id s (wrap (codes "load active task") x)
    no_branch : (x : Error) → NoBranch (open_tasks user_id t.tasks) x → ListFault user_id s x

  -- The ways the command ends; none changes the tables. What is shown are the open tasks in the order of
  -- the query, each with its branch.
  pub data Lists (c user_id : Text) (s : Store) : Result MessageResponse × Store → Type 0 where
    fails :
        (e : Error) (v : Store)
        → ListFault user_id s e
        → v.tables ≡ t
        → Lists c user_id s (err e, v)
    empty :
        (v : Store)
        → v.tables ≡ t
        → open_tasks user_id t.tasks ≡ []
        → Lists c user_id s (ok (task_command_response (no_open_tasks_message c)), v)
    listed :
        (shown : List (Task × Option Text)) (v : Store)
        → v.tables ≡ t
        → open_tasks user_id t.tasks ≢ []
        → map (λ x. x.0) shown ≡ open_tasks user_id t.tasks
        → All HasBranch shown
        → Lists c user_id s (ok (list_reply c (map (line_of (active_of user_id t)) shown)), v)

  pub data Lined (active : Option ActiveTask) (tasks : List Task)
      : Result (List Text) × Store → Type 0 where
    stopped :
        (e : Error) (s : Store) → NoBranch tasks e → s.tables ≡ t → Lined active tasks (err e, s)
    lined :
        (shown : List (Task × Option Text)) (s : Store)
        → s.tables ≡ t
        → map (λ x. x.0) shown ≡ tasks
        → All HasBranch shown
        → Lined active tasks (ok (map (line_of active) shown), s)

module _ (worktrees : Option (TaskWorktrees Store)) (reads : Reads worktrees)
    (active : Option ActiveTask) (t : Tables) where
  line_before :
      (task : Task) (branch : Option Text) (tasks : List Task) (r : Result (List Text) × Store)
      → HasBranch worktrees t (task, branch)
      → Lined worktrees t active tasks r
      → Lined worktrees t active (task ∷ tasks) (
          continue_with
            (λ rest.
              succeed (task_line (is_active_task task active) (with_branch task branch) ∷ rest))
            r)
  line_before task branch tasks _ h (stopped e v (other, w, m, same, x) kept) =
      stopped e v (other, w, mem-cons_of_mem task m, same, x) kept
  line_before task branch tasks _ h (lined shown v kept l hs) =
      lined ((task, branch) ∷ shown) v kept (ap (λ xs. task ∷ xs) l) (h, hs)

  branch_before :
      (task : Task) (tasks : List Task) (s : Store) (r : Result (Option Text) × Store)
      → s.tables ≡ t
      → branch_of (branch_reader worktrees) task s ≡ r
      → r.1.tables ≡ t
      → ((v : Store)
          → v.tables ≡ t
          → Lined worktrees t active tasks (list_lines worktrees active tasks v))
      → Lined worktrees t active (task ∷ tasks) (
          continue_with
            (λ rendered. list_lines worktrees active tasks >>= λ rest.
              succeed (task_line (is_active_task task active) rendered ∷ rest))
            (continue_with (λ branch. succeed (with_branch task branch)) r))
  branch_before task tasks s (err e, v) same h kept rest =
      stopped e v (task, s, mem-cons_self, same, ap (λ x. x.0) h) kept
  branch_before task tasks s (ok branch, v) same h kept rest =
      line_before task branch tasks (list_lines worktrees active tasks v) (s, same, ap (λ x. x.0) h)
        (rest v kept)

  list_lines-Lined :
      (tasks : List Task) (s : Store)
      → s.tables ≡ t
      → Lined worktrees t active tasks (list_lines worktrees active tasks s)
  unfolding list_lines
  list_lines-Lined [] s same = lined [] s same refl tt
  list_lines-Lined (task ∷ tasks) s same =
      branch_before task tasks s (branch_of (branch_reader worktrees) task s) same refl
        (reads task s ∙ same) (λ v kept. list_lines-Lined tasks v kept)

-- A read gives what the tables hold, or fails; the tables stay.
query-cases :
    {A : Type 0} (x : Text) (f : Tables → A) (s : Store)
    → ((v : Store) × ((or_wrap x driver >> query f) s ≡ (ok (f s.tables), v))
        × (v.tables ≡ s.tables))
      ⊎ ((e : Error) × (v : Store) × ((or_wrap x driver >> query f) s ≡ (err e, v))
          × (v.tables ≡ s.tables))
unfolding query
query-cases x f s = elim (driver-cases s) [
  | inl (v, e, same, clocked) ↦ inl (v, rw e (ap (λ t. (ok (f t), v)) same), same)
  | inr (y, v, e, same) ↦ inr (wrap x y, v, rw e refl, same)
]

module _ (u : Unicode) (worktrees : Option (TaskWorktrees Store)) (reads : Reads worktrees)
    (c user_id : Text) (s : Store) where
  with_lines :
      (task : Task) (tasks : List Task) (r : Result (List Text) × Store)
      → open_tasks user_id s.tables.tasks ≡ task ∷ tasks
      → Lined worktrees s.tables (active_of user_id s.tables) (task ∷ tasks) r
      → Lists worktrees s.tables c user_id s
          (continue_with (λ lines. succeed (list_reply c lines)) r)
  with_lines task tasks _ e (stopped x v (one, w, m, same, h) kept) =
      fails x v (no_branch x (one, w, rw e m, same, h)) kept
  with_lines task tasks _ e (lined shown v kept l hs) =
      listed shown v kept (λ n. ground (arith, e, n)) (l ∙ sym e) hs

  list_found-Lists :
      (tasks : List Task) (v : Store)
      → list_open_tasks user_id s ≡ (ok tasks, v)
      → v.tables ≡ s.tables
      → open_tasks user_id s.tables.tasks ≡ tasks
      → Lists worktrees s.tables c user_id s
          (list_found (sqlite_store u) worktrees c user_id tasks v)
  unfolding get_active_task active_of
  list_found-Lists [] v at same e = empty v same e
  list_found-Lists (task ∷ tasks) v at same e =
      elim (query-cases (codes "scan active task") (active_of user_id) v) [
        | inl (w, read, kept) ↦ rw read (
            with_lines task tasks _ e (
              rw same (
                list_lines-Lined worktrees reads (active_of user_id s.tables) s.tables
                  (task ∷ tasks) w (kept ∙ same))))
        | inr (x, w, read, kept) ↦
            rw read (fails _ w (no_choice x (task ∷ tasks) v w at read) (kept ∙ same))
      ]

-- When reading a branch leaves the tables alone, listing the open tasks leaves them alone too, and fails
-- only with the error of a call that failed: of the list, the active task or a branch. It tells that
-- there is no open task exactly when the user has none; else it gives one line for each open task of
-- the user, in the order of the query, with the branch that was read, and marks that of the active task.
pub list_tasks-Lists :
    (u : Unicode) (worktrees : Option (TaskWorktrees Store)) (c user_id : Text) (s : Store)
    → Reads worktrees
    → Lists worktrees s.tables c user_id s (list_tasks (sqlite_store u) worktrees c user_id s)
unfolding list_tasks list_open_tasks
list_tasks-Lists u worktrees c user_id s reads =
    elim (query-cases (codes "query open tasks") (λ t. open_tasks user_id t.tasks) s) [
      | inl (v, read, kept) ↦ rw read (
          list_found-Lists u worktrees reads c user_id s (open_tasks user_id s.tables.tasks) v read
            kept refl)
      | inr (x, v, read, kept) ↦ rw read (fails _ v (no_tasks x v read) kept)
    ]
