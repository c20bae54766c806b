-- ===== src/Workspace/Ready.antt =====
-- What `EnsureReady` makes of the row of a task.
use claw.Prelude.{
  ◌≡◌, refl, ap, ◌∙◌, inl, inr, Bool, true, false, Option, none, some, List, [], ◌∷◌, first,
  Bool-cases,
}
use claw.Prelude.Text.{Text, codes, is_empty, trim_space}
use claw.Errors.{Error, not_exist, is_error, Result, ok, err, Action}
use claw.TaskBranch.{Unicode}
use claw.Types.{Task, ready, failed}
use claw.Store.{Store}
use claw.Store.Tasks.{is_task, with_defaults}
use claw.Store.Scheduled.Admission.{IsThrough}
use claw.Workspace.{Manager, run_git_in}
use claw.Workspace.Repository.{
  verified_ref, head_ref, origin_head_ref, first_ref, detected, detect_base_ref,
  base_ref_candidates,
}
use claw.Workspace.Worktrees.{
  failed_task, ready_task, mark_task_worktree_failed, or_failed_then, or_failed, remove_stale,
  prepare_worktree_path, base_ref_of, add_arguments, store_ready, add_worktree, path_of, set_up,
  branched, has_worktree, ensure_ready,
}
use claw.Workspace.Rows.{row_of, Spares, update_task-found}
use claw.Workspace.Quiet.{
  Leaves, Leaves-refl, Leaves-trans, IsQuiet, IsApart, bind-IsQuiet, wrap-IsQuiet, attempt-IsQuiet,
  succeed-IsQuiet, fail-IsQuiet, if-IsQuiet, on_sqlite, git-IsQuiet, ref_exists-IsQuiet,
  branch_exists-IsQuiet, ensure_repository-IsQuiet,
}

module _ (u : Unicode) (base : Manager Store) (apart : IsApart base) where
  abbrev m : Manager Store
  m = on_sqlite u base

  verified_ref-IsQuiet : (ref : Text) (r : Result Bool) → IsQuiet (verified_ref m ref r)
  verified_ref-IsQuiet ref (ok true) = succeed-IsQuiet (some ref)
  verified_ref-IsQuiet ref (ok false) = succeed-IsQuiet none
  verified_ref-IsQuiet ref (err e) = succeed-IsQuiet none

  head_ref-IsQuiet : (path : Text) (r : Result Text) → IsQuiet (head_ref m path r)
  head_ref-IsQuiet path (err e) = succeed-IsQuiet none
  head_ref-IsQuiet path (ok ref) =
      if-IsQuiet (is_empty (trim_space ref)) _ _ (succeed-IsQuiet none) (
        bind-IsQuiet _ _ (attempt-IsQuiet _ (ref_exists-IsQuiet u base apart path ref))
          (verified_ref-IsQuiet ref))

  origin_head_ref-IsQuiet : (path : Text) → IsQuiet (origin_head_ref m path)
  unfolding origin_head_ref
  origin_head_ref-IsQuiet path =
      bind-IsQuiet _ _ (attempt-IsQuiet _ (git-IsQuiet u base apart path _)) (head_ref-IsQuiet path)

  first_ref-IsQuiet : (path : Text) (refs : List Text) → IsQuiet (first_ref m path refs)
  unfolding first_ref
  first_ref-IsQuiet path [] = fail-IsQuiet Text _
  first_ref-IsQuiet path (ref ∷ refs) =
      bind-IsQuiet _ _ (ref_exists-IsQuiet u base apart path ref)
        λ exists. if-IsQuiet exists _ _ (succeed-IsQuiet ref) (first_ref-IsQuiet path refs)

  detected-IsQuiet : (path : Text) (o : Option Text) → IsQuiet (detected m path o)
  detected-IsQuiet path (some ref) = succeed-IsQuiet ref
  detected-IsQuiet path none = first_ref-IsQuiet path base_ref_candidates

  base_ref-IsQuiet : (path base_ref : Text) → IsQuiet (base_ref_of m path base_ref)
  unfolding detect_base_ref
  base_ref-IsQuiet path base_ref =
      if-IsQuiet (is_empty base_ref) _ _
        (bind-IsQuiet _ _ (origin_head_ref-IsQuiet path) (detected-IsQuiet path))
        (succeed-IsQuiet base_ref)

  remove_stale-IsQuiet :
      (repository_path path : Text) (r : Result (Unit {0}))
      → IsQuiet (remove_stale m repository_path path r)
  remove_stale-IsQuiet repository_path path (ok x) =
      bind-IsQuiet _ _ (attempt-IsQuiet _ (git-IsQuiet u base apart repository_path _))
        λ y. succeed-IsQuiet tt
  remove_stale-IsQuiet repository_path path (err e) =
      if-IsQuiet (is_error e not_exist) _ _ (succeed-IsQuiet tt) (fail-IsQuiet (Unit {0}) _)

  prepare-IsQuiet :
      (repository_path path : Text) → IsQuiet (prepare_worktree_path m repository_path path)
  unfolding prepare_worktree_path
  prepare-IsQuiet repository_path path = bind-IsQuiet _ _ (wrap-IsQuiet _ _ (apart.makes _)) λ x.
      bind-IsQuiet _ _ (attempt-IsQuiet _ (apart.looks _)) λ found.
        bind-IsQuiet _ _ (remove_stale-IsQuiet repository_path path found)
          λ y. wrap-IsQuiet (codes "clear worktree path") _ (apart.removes path)

  -- How `EnsureReady` ends.
  pub data Settled (task : Task) (s : Store) (r : Result Task × Store) : Type 0 where
    unnamed :
        (e : Error) → is_empty (trim_space task.task_id) ≡ true → r ≡ (err e, s) → Settled task s r
    had : has_worktree m (branched m task) ≡ true → r ≡ (ok (branched m task), s) → Settled task s r
    refused :
        (cause : Error)
        → (row : Task) → r.0 ≡ err cause
        → row_of task.discord_user_id task.task_id r.1 ≡ some row
        → row.worktree_status ≡ failed
        → Spares task.discord_user_id task.task_id s r.1
        → Settled task s r
    settled :
        (done row : Task)
        → (repository_path base_ref out : Text) → (exists : Bool) → (x : Store)
        → (run_git_in m repository_path
            (add_arguments exists (branched m task).branch_name (path_of m task) base_ref)
            x).0
          ≡ ok out
        → r.0 ≡ ok done
        → done.worktree_status ≡ ready
        → done.worktree_path ≡ path_of m task
        → row_of task.discord_user_id task.task_id r.1 ≡ some row
        → row.worktree_status ≡ ready
        → row.worktree_path ≡ path_of m task
        → Spares task.discord_user_id task.task_id s r.1
        → Settled task s r

  module _ (task row : Task) (s : Store) (through : IsThrough s)
      (found : row_of task.discord_user_id task.task_id s ≡ some row) where
    abbrev named : Task
    named = branched m task

    found_at : (t : Store) → Leaves s t → row_of task.discord_user_id task.task_id t ≡ some row
    found_at t l = ap (first (is_task task.discord_user_id task.task_id)) l.tasks ∙ found

    left_alone :
        (t v : Store)
        → Leaves s t
        → Spares task.discord_user_id task.task_id t v
        → Spares task.discord_user_id task.task_id s v
    left_alone t v l p = record {
      others = λ user_id task_id h.
          p.others user_id task_id h ∙ ap (first (is_task user_id task_id)) l.tasks;
      through = λ h. p.through (l.through h);
    }

    mark-Settled :
        (path : Text) (cause : Error) (t : Store)
        → Leaves s t
        → Settled task s (mark_task_worktree_failed m named path cause t)
    unfolding mark_task_worktree_failed with_defaults
    mark-Settled path cause t l =
        let (now, t1) = base.clock t in
        let l1 = Leaves-trans s t t1 l (apart.reads t) in
        let (v, e, there, p) =
          update_task-found u (failed_task now path named) row t1 (l1.through through)
            (found_at t1 l1) in
        rw e (refused cause _ refl there refl (left_alone t1 v l1 p))

    store_ready-Settled :
        (repository_path base_ref out : Text) (exists : Bool) (x t : Store)
        → (run_git_in m repository_path
            (add_arguments exists named.branch_name (path_of m task) base_ref)
            x).0
          ≡ ok out
        → Leaves s t
        → Settled task s (store_ready m named base_ref (path_of m task) t)
    unfolding with_defaults
    store_ready-Settled repository_path base_ref out exists x t added l =
        let (now, t1) = base.clock t in
        let l1 = Leaves-trans s t t1 l (apart.reads t) in
        let done = ready_task now base_ref (path_of m task) named in
        let (v, e, there, p) =
          update_task-found u done row t1 (l1.through through) (found_at t1 l1) in
        rw e (
          settled done _ repository_path base_ref out exists x added refl refl refl there refl refl
            (left_alone t1 v l1 p))

    -- A step that leaves the tasks alone, and what follows it.
    step-Settled :
        {A : Type 0} (path : Text) (step : Action Store A) (next : A → Action Store Task)
        (t : Store)
        → IsQuiet step
        → Leaves s t
        → ((a : A) (v : Store) → (step t).0 ≡ ok a → Leaves s v → Settled task s (next a v))
        → Settled task s (or_failed m named path step next t)
    step-Settled path step next t quiet l follows =
        by_result (step t) refl (Leaves-trans s t _ l (quiet.leaves t))
      where
        by_result :
            (r : Result _ × Store)
            → step t ≡ r
            → Leaves s r.1
            → Settled task s (or_failed_then m named path next r)
        by_result (ok a, v) e k = follows a v (ap (λ r. r.0) e) k
        by_result (err x, v) e k = mark-Settled path x v k

    add_worktree-Settled :
        (repository_path base_ref : Text) (t : Store)
        → Leaves s t
        → Settled task s (add_worktree m named repository_path base_ref (path_of m task) t)
    add_worktree-Settled repository_path base_ref t l =
        let path = path_of m task in
        step-Settled path _ _ t (prepare-IsQuiet repository_path path) l λ x v e k.
          step-Settled path _ _ v
            (branch_exists-IsQuiet u base apart repository_path named.branch_name) k
            λ exists y f j.
              step-Settled path _ _ y
                (git-IsQuiet u base apart repository_path
                  (add_arguments exists named.branch_name path base_ref))
                j
                λ out z added i. store_ready-Settled repository_path base_ref out exists y z added i

    set_up-Settled : Settled task s (set_up m named s)
    set_up-Settled =
        step-Settled [] _ _ s (ensure_repository-IsQuiet u base apart) (Leaves-refl s) λ path v e k.
          step-Settled [] _ _ v (base_ref-IsQuiet path task.base_ref) k
            λ base_ref y f j. add_worktree-Settled path base_ref y j

    -- Let the calls of git and of the file system leave the table of tasks alone. Let the driver go
    -- through, and let the task have its row.
    -- Making a task ready is refused for a blank id, gives the task back when it has its worktree, or
    -- fails with the row marked as failed, or succeeds when git has added a worktree for the branch,
    -- with the row ready at its path; the rows of the other tasks stay.
    pub ensure_ready-Settled : Settled task s (ensure_ready m task s)
    unfolding ensure_ready
    ensure_ready-Settled = elim (Bool-cases (is_empty (trim_space task.task_id))) [
      | inl e ↦ rw e (unnamed _ e refl)
      | inr e ↦ rw e (elim (Bool-cases (has_worktree m named)) [
        | inl h ↦ rw h (had h refl)
        | inr h ↦ rw h set_up-Settled
      ])
    ]
