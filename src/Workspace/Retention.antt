-- ===== src/Workspace/Retention.antt =====
-- Which worktrees of closed tasks are pruned.
use claw.Prelude.{
  ℕ, zero, suc, ◌≤◌, ◌≡◌, refl, ◌∙◌, inl, inr, List, [], ◌∷◌, ◌++◌, arith, leb, length, Bool-cases,
  All,
}
use claw.Prelude.Text.{Text, codes}
use claw.Errors.{Error, Result, ok, err, wrapped, continue_with}
use claw.TaskBranch.{Unicode}
use claw.Types.{Task, pruned}
use claw.Store.{Store, query}
use claw.Store.Tasks.{list_closed_ready_tasks}
use claw.Store.Scheduled.Admission.{IsThrough, driver-through}
use claw.Workspace.{Manager}
use claw.Workspace.Repository.{ensure_managed_repository}
use claw.Workspace.Worktrees.{
  drop, join_errors, prune_task, prune_tasks, pruned_all, prune_listed, prune_closed,
}
use claw.Workspace.Rows.{row_of, IsOther, HasStatus}
use claw.Workspace.Quiet.{Leaves, IsApart, on_sqlite, ensure_repository-IsQuiet}
use claw.Workspace.Pruning.{IsGone, prune_task-Round, keep_row}

abbrev pub AreOthers : List Task → Text → Text → Type 0
AreOthers tasks user_id task_id =
    All (λ task. IsOther task.discord_user_id task.task_id user_id task_id) tasks

append-empty : (es fs : List Error) → es ++ fs ≡ [] → (es ≡ []) × (fs ≡ [])
append-empty [] fs h = (refl, h)
append-empty (e ∷ es) fs h = absurd (ground arith)

drop-all : (n : ℕ) (xs : List Task) → length xs ≤ n → drop n xs ≡ []
unfolding drop
drop-all zero [] h = refl
drop-all zero (x ∷ xs) h = absurd (omega arith)
drop-all (suc n) [] h = refl
drop-all (suc n) (x ∷ xs) h = drop-all n xs (omega arith)

join_errors-ok : (es : List Error) → join_errors es ≡ ok tt → es ≡ []
join_errors-ok [] h = refl
join_errors-ok (e ∷ es) h = absurd (ground arith)

module _ (u : Unicode) (base : Manager Store) (apart : IsApart base) where
  abbrev m : Manager Store
  m = on_sqlite u base

  abbrev pub AreGone : List Task → Store → Type 0
  AreGone tasks s = All (λ task. IsGone u base apart task s) tasks

  -- What the rounds of the loop do together.
  record Rounds (tasks : List Task) (s : Store) (r : List Error × Store) : Type 0 where
    others :
        (user_id task_id : Text)
        → AreOthers tasks user_id task_id
        → row_of user_id task_id r.1 ≡ row_of user_id task_id s
    keeps :
        (user_id task_id : Text)
        → HasStatus user_id task_id pruned s
        → HasStatus user_id task_id pruned r.1
    gone : r.0 ≡ [] → AreGone tasks r.1

  prune_tasks-Rounds :
      (path : Text) (tasks : List Task) (s : Store)
      → IsThrough s
      → Rounds tasks s (prune_tasks m path tasks s)
  unfolding prune_tasks
  prune_tasks-Rounds path [] s through = record {
    others = λ user_id task_id h. refl;
    keeps = λ user_id task_id h. h;
    gone = λ h. tt;
  }
  prune_tasks-Rounds path (task ∷ tasks) s through =
      let (errors, s1) = prune_task m path task s in
      let one = prune_task-Round u base apart path task s through in
      let more = prune_tasks-Rounds path tasks s1 one.through in
      record {
        others =
            λ user_id task_id h. more.others user_id task_id h.1 ∙ one.others user_id task_id h.0;
        keeps = λ user_id task_id h. more.keeps user_id task_id (one.keeps user_id task_id h);
        gone = λ h.
            let (e, f) = append-empty errors (prune_tasks m path tasks s1).0 h in
            (still task (prune_tasks m path tasks s1).1 s1 more.keeps (one.gone e), more.gone f);
      }
    where
      still :
          (task : Task) (t s1 : Store)
          → ((user_id task_id : Text)
              → HasStatus user_id task_id pruned s1
              → HasStatus user_id task_id pruned t)
          → IsGone u base apart task s1
          → IsGone u base apart task t
      still task t s1 keeps (inl e) = inl e
      still task t s1 keeps (inr h) = inr (keeps task.discord_user_id task.task_id h)

  -- How the pruning of a list ends.
  pub record Pruned (tasks : List Task) (s : Store) (r : Result (Unit {0}) × Store) : Type 0 where
    pub within : length tasks ≤ base.closed_retention → r ≡ (ok tt, s)
    pub others :
        (user_id task_id : Text)
        → AreOthers (drop base.closed_retention tasks) user_id task_id
        → row_of user_id task_id r.1 ≡ row_of user_id task_id s
    pub gone : r.0 ≡ ok tt → AreGone (drop base.closed_retention tasks) r.1

  prune_listed-Pruned :
      (tasks : List Task) (s : Store) → IsThrough s → Pruned tasks s (prune_listed m tasks s)
  prune_listed-Pruned tasks s through =
      elim (Bool-cases (leb (length tasks) base.closed_retention)) [
        | inl e ↦ rw e (record {
          within = λ h. refl;
          others = λ user_id task_id h. refl;
          gone = λ h. rw (drop-all base.closed_retention tasks (ground arith)) tt;
        })
        | inr e ↦ rw e (
            by_repository (ground arith) (ensure_managed_repository m s)
              ((ensure_repository-IsQuiet u base apart).leaves s))
      ]
    where
      by_repository :
          (length tasks ≤ base.closed_retention → ⊥)
          → (r : Result Text × Store) → Leaves s r.1
          → Pruned tasks s (
              continue_with
                (λ path w. pruned_all (prune_tasks m path (drop base.closed_retention tasks) w))
                (wrapped (codes "ensure managed task repository") r))
      by_repository many (err e, t) l = record {
        within = λ h. absurd (many h);
        others = λ user_id task_id h. keep_row u base apart s t user_id task_id l;
        gone = λ h. absurd (ground arith);
      }
      by_repository many (ok path, t) l =
          let rounds =
            prune_tasks-Rounds path (drop base.closed_retention tasks) t (l.through through) in
          record {
            within = λ h. absurd (many h);
            others = λ user_id task_id h.
                rounds.others user_id task_id h ∙ keep_row u base apart s t user_id task_id l;
            gone = λ h. rounds.gone (join_errors-ok _ h);
          }

  -- Let the calls of git and of the file system leave the table of tasks alone, and let the driver go
  -- through.
  -- Pruning lists the closed tasks with a worktree. Up to the retention it changes nothing; past it,
  -- only rows of the tasks behind the first ones change, as many as the retention, and when it
  -- succeeds, each of those tasks has no worktree or a row that is pruned.
  pub prune_closed-Pruned :
      (s : Store)
      → IsThrough s
      → (tasks : List Task) × ((list_closed_ready_tasks s).0 ≡ ok tasks)
        × Pruned tasks s (prune_closed m s)
  unfolding prune_closed list_closed_ready_tasks query
  prune_closed-Pruned s through =
      rw (driver-through s through) (_, refl, prune_listed-Pruned _ s through)
