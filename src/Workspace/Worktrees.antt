-- ===== src/Workspace/Worktrees.antt =====
-- internal/app/task_workspace.go: the worktrees of tasks and of scheduled runs.
use claw.Prelude.{
  ℕ, zero, suc, Bool, true, false, not, ◌&&◌, ◌||◌, Option, none, some, List, [], ◌∷◌, ◌++◌, leb,
  length, if◌then◌else◌,
}
use claw.Prelude.Text.{Text, codes, is_empty, trim_space}
use claw.Errors.{
  Error, message, not_exist, is_error, error_text, wrap, noted, joined, Result, ok, err, Action,
  ◌>>=◌, ◌>>◌, or_wrap, succeed, fail, attempt,
}
use claw.TaskBranch.{default_task_branch_name}
use claw.Types.{Time, Task, TaskWorktreeStatus, pending, ready, failed, pruned, is_ready}
use claw.Workspace.{Manager, run_git_in, worktree_path, branch_exists}
use claw.Workspace.Repository.{ensure_managed_repository, detect_base_ref}

-- The list behind its first rows: tasks[n:].
unfoldable pub drop {ℓ} : {A : Type ℓ} → ℕ → List A → List A
drop zero xs = xs
drop (suc n) [] = []
drop (suc n) (x ∷ xs) = drop n xs

abbrev pub or_pending : TaskWorktreeStatus → TaskWorktreeStatus
or_pending TaskWorktreeStatus.unset = pending
or_pending status = status

-- The task with failed set up.
abbrev pub failed_task : Time → Text → Task → Task
failed_task now path task = record task {
  worktree_status = failed;
  updated_at = now;
  worktree_path = if is_empty task.worktree_path then path else task.worktree_path;
}

abbrev or_created : Time → Option Time → Option Time
or_created now none = some now
or_created now (some at) = some at

abbrev pub ready_task : Time → Text → Text → Task → Task
ready_task now base_ref path task = record task {
  base_ref = base_ref;
  worktree_path = path;
  worktree_status = ready;
  worktree_pruned_at = none;
  updated_at = now;
  worktree_created_at = or_created now task.worktree_created_at;
}

abbrev pub pruned_task : Time → Task → Task
pruned_task now task = record task {
  worktree_status = pruned;
  worktree_pruned_at = some now;
  updated_at = now;
}

abbrev pub cause_or {ℓ} : {A : Type ℓ} {W : Type 0} → Error → Result (Unit {0}) × W → Result A × W
cause_or cause (ok x, w) = (err cause, w)
cause_or cause (err e, w) =
    (err (wrap (codes "mark task worktree failed") (noted e (error_text cause))), w)

abbrev pub join_onto : Error → List Error → Error
join_onto e [] = e
join_onto e (f ∷ fs) = joined e (join_onto f fs)

-- errors.Join
abbrev pub join_errors : List Error → Result (Unit {0})
join_errors [] = ok tt
join_errors (e ∷ es) = err (join_onto e es)

abbrev pub add_arguments : Bool → Text → Text → Text → List Text
add_arguments true branch_name path base_ref =
    codes "worktree" ∷ codes "add" ∷ path ∷ branch_name ∷ []
add_arguments false branch_name path base_ref =
    codes "worktree" ∷ codes "add" ∷ codes "-b" ∷ branch_name ∷ path ∷ base_ref ∷ []

abbrev pub stored_ready : {W : Type 0} → Task → Result (Unit {0}) × W → Result Task × W
stored_ready task (ok x, w) = (ok task, w)
stored_ready task (err e, w) = (err (wrap (codes "persist ready task worktree") e), w)

abbrev pub persist_errors : {W : Type 0} → Task → Result (Unit {0}) × W → List Error × W
persist_errors task (ok x, w) = ([], w)
persist_errors task (err e, w) = (wrap (codes "persist pruned task " ++ task.task_id) e ∷ [], w)

abbrev pub pruned_all : {W : Type 0} → List Error × W → Result (Unit {0}) × W
pruned_all (errors, w) = (join_errors errors, w)

abbrev shown : Text → Option Text
shown branch = if is_empty (trim_space branch) then none else some (trim_space branch)

module _ {W : Type 0} (m : Manager W) where
  unfoldable pub mark_task_worktree_failed {ℓ} : {A : Type ℓ} → Task → Text → Error → Action W A
  mark_task_worktree_failed task path cause w =
      let (now, w1) = m.clock w in
      cause_or cause (m.store.update_task (failed_task now path task) w1)

  -- A step whose error marks the task.
  abbrev pub or_failed_then {ℓ} :
      {A : Type ℓ} → Task → Text → (A → Action W Task) → Result A × W → Result Task × W
  or_failed_then task path next (ok a, w) = next a w
  or_failed_then task path next (err e, w) = mark_task_worktree_failed task path e w

  abbrev pub or_failed {ℓ} :
      {A : Type ℓ} → Task → Text → Action W A → (A → Action W Task) → Action W Task
  or_failed task path step next w = or_failed_then task path next (step w)

  -- The removal of a worktree that is there already, whose error is only logged.
  abbrev pub remove_stale : Text → Text → Result (Unit {0}) → Action W (Unit {0})
  remove_stale repository_path path (ok x) =
      attempt (
        run_git_in m repository_path
          (codes "worktree" ∷ codes "remove" ∷ codes "--force" ∷ path ∷ []))
      >> succeed tt
  remove_stale repository_path path (err e) =
      if is_error e not_exist
      then succeed tt
      else fail (wrap (codes "stat existing worktree path") e)

  unfoldable pub prepare_worktree_path : Text → Text → Action W (Unit {0})
  prepare_worktree_path repository_path path = do
    or_wrap (codes "create worktree parent directory") (m.mkdir_all (m.dir path))
    found ← attempt (m.stat path)
    remove_stale repository_path path found
    or_wrap (codes "clear worktree path") (m.remove_all path)

  abbrev pub base_ref_of : Text → Text → Action W Text
  base_ref_of repository_path base_ref =
      if is_empty base_ref then detect_base_ref m repository_path else succeed base_ref

  abbrev pub store_ready : Task → Text → Text → Action W Task
  store_ready task base_ref path w =
      let (now, w1) = m.clock w in
      stored_ready (ready_task now base_ref path task)
        (m.store.update_task (ready_task now base_ref path task) w1)

  -- The steps behind the repository, with the base and the path of the worktree.
  abbrev pub add_worktree : Task → Text → Text → Text → Action W Task
  add_worktree task repository_path base_ref path =
      or_failed task path (prepare_worktree_path repository_path path) λ x.
        or_failed task path (branch_exists m repository_path task.branch_name) λ exists.
          or_failed task path
            (run_git_in m repository_path (add_arguments exists task.branch_name path base_ref))
            λ out. store_ready task base_ref path

  abbrev pub path_of : Task → Text
  path_of task =
      if is_empty task.worktree_path then worktree_path m task.task_id else task.worktree_path

  abbrev pub set_up : Task → Action W Task
  set_up task = or_failed task [] (ensure_managed_repository m) λ repository_path.
      or_failed task [] (base_ref_of repository_path task.base_ref)
        λ base_ref. add_worktree task repository_path base_ref (path_of task)

  -- The defaults of `EnsureReady`.
  abbrev pub branched : Task → Task
  branched task = record task {
    branch_name =
        if is_empty task.branch_name
        then default_task_branch_name m.unicode task.task_name task.task_id
        else task.branch_name;
    worktree_status = or_pending task.worktree_status;
  }

  abbrev pub has_worktree : Task → Bool
  has_worktree task =
      is_ready task.worktree_status && not (is_empty (trim_space task.worktree_path))

  unfoldable pub ensure_ready : Task → Action W Task
  unfolding prepare_worktree_path
  ensure_ready task w =
      if is_empty (trim_space task.task_id)
      then (err (message (codes "task id must not be empty")), w)
      else if has_worktree (branched task)
      then (ok (branched task), w)
      else set_up (branched task) w

  abbrev pub removed : Task → Result Text × W → List Error × W
  removed task (err e, w) = (wrap (codes "prune task " ++ task.task_id) e ∷ [], w)
  removed task (ok out, w) =
      let (now, w1) = m.clock w in
      persist_errors task (m.store.update_task (pruned_task now task) w1)

  -- One round of the loop over the tasks past the retention, with its errors.
  abbrev pub prune_task : Text → Task → W → List Error × W
  prune_task repository_path task w =
      if is_empty (trim_space task.worktree_path)
      then ([], w)
      else removed task (
          run_git_in m repository_path
            (codes "worktree" ∷ codes "remove" ∷ codes "--force" ∷ task.worktree_path ∷ []) w)

  unfoldable pub prune_tasks : Text → List Task → W → List Error × W
  prune_tasks repository_path [] w = ([], w)
  prune_tasks repository_path (task ∷ tasks) w =
      let (errors, w1) = prune_task repository_path task w in
      let (more, w2) = prune_tasks repository_path tasks w1 in (errors ++ more, w2)

  abbrev pub prune_listed : List Task → Action W (Unit {0})
  prune_listed tasks =
      if leb (length tasks) m.closed_retention
      then succeed tt
      else or_wrap (codes "ensure managed task repository") (ensure_managed_repository m)
        >>= λ path w. pruned_all (prune_tasks path (drop m.closed_retention tasks) w)

  unfoldable pub prune_closed : Action W (Unit {0})
  unfolding prune_tasks drop
  prune_closed =
      or_wrap (codes "list closed ready tasks") m.store.list_closed_ready_tasks >>= prune_listed

  unfoldable pub current_branch : Task → Action W (Option Text)
  current_branch task =
      if not (is_ready task.worktree_status) || is_empty (trim_space task.worktree_path)
      then succeed none
      else or_wrap (codes "read current worktree branch") (
          run_git_in m (trim_space task.worktree_path)
            (codes "branch" ∷ codes "--show-current" ∷ []))
        >>= λ branch. succeed (shown branch)

  abbrev pub scheduled_path : Text → Text
  scheduled_path run_id = m.join (m.join m.data_dir (codes "scheduled-worktrees")) run_id

  -- The repository and the path, from which the cleanup is made.
  unfoldable pub prepare_temporary_worktree : Text → Action W (Text × Text)
  unfolding prepare_worktree_path
  prepare_temporary_worktree run_id =
      if is_empty (trim_space run_id)
      then fail (message (codes "scheduled run id must not be empty"))
      else do
        repository_path ← ensure_managed_repository m
        base_ref ← detect_base_ref m repository_path
        prepare_worktree_path repository_path (scheduled_path (trim_space run_id))
        run_git_in m repository_path (
            codes "worktree"
            ∷ codes "add"
            ∷ codes "--detach"
            ∷ scheduled_path (trim_space run_id)
            ∷ base_ref
            ∷ [])
        succeed (repository_path, scheduled_path (trim_space run_id))

  -- The function that `PrepareTemporaryWorktree` returns.
  unfoldable pub cleanup_temporary_worktree : Text → Text → Action W (Unit {0})
  cleanup_temporary_worktree repository_path path = do
    run_git_in m repository_path (codes "worktree" ∷ codes "remove" ∷ codes "--force" ∷ path ∷ [])
    or_wrap (codes "remove scheduled worktree path") (m.remove_all path)
