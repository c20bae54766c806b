-- ===== src/Workspace/Pruning.antt =====
-- What `PruneClosed` does to the rows of the tasks.
use claw.Prelude.{
  ◌≡◌, refl, sym, ap, subst, ◌∙◌, ◌⊎◌, inl, inr, true, ◌&&◌, List, [], arith, first, Bool-cases,
  Option-cases,
}
use claw.Prelude.Text.{Text, text_eq, text_eq_iff, is_empty, trim_space}
use claw.Errors.{Error, Result, ok, err}
use claw.TaskBranch.{Unicode}
use claw.Types.{Time, Task, pruned}
use claw.Store.{Store}
use claw.Store.Tasks.{is_task, changed, with_defaults, update_task}
use claw.Store.Scheduled.Admission.{IsThrough}
use claw.Workspace.{Manager}
use claw.Workspace.Worktrees.{pruned_task, persist_errors, removed, prune_task}
use claw.Workspace.Rows.{
  row_of, IsOther, HasStatus, update_task-found, update_task-missing, update_task-row,
  update_task-IsThrough,
}
use claw.Workspace.Quiet.{Leaves, Leaves-refl, Leaves-trans, IsApart, on_sqlite, git-IsQuiet}

module _ (u : Unicode) (base : Manager Store) (apart : IsApart base) where
  abbrev m : Manager Store
  m = on_sqlite u base

  -- Storing a task as pruned.
  stored-pruned :
      (now : Time) (task : Task) (s : Store)
      → IsThrough s
      → (update_task u (pruned_task now task) s).0 ≡ ok tt
      → HasStatus task.discord_user_id task.task_id pruned
          (update_task u (pruned_task now task) s).1
  unfolding with_defaults
  stored-pruned now task s through h =
      elim (Option-cases (row_of task.discord_user_id task.task_id s)) [
        | inl e ↦
            absurd (err-ne-ok (sym (update_task-missing u (pruned_task now task) s through e) ∙ h))
        | inr (row, e) ↦
            let (t, f, there, spares) =
              update_task-found u (pruned_task now task) row s through e in
            rw f (changed (with_defaults u s.now (pruned_task now task)) row, there, refl)
      ]
    where
      err-ne-ok : {e : Error} → ◌≡◌ {A = Result (Unit {0})} (err e) (ok tt) → ⊥
      err-ne-ok h = cc

  stored-keeps_same :
      (now : Time) (task : Task) (s : Store)
      → IsThrough s
      → HasStatus task.discord_user_id task.task_id pruned s
      → HasStatus task.discord_user_id task.task_id pruned
          (update_task u (pruned_task now task) s).1
  unfolding with_defaults
  stored-keeps_same now task s through (row, e, h) =
      let (t, f, there, spares) = update_task-found u (pruned_task now task) row s through e in
      rw f (changed (with_defaults u s.now (pruned_task now task)) row, there, refl)

  same-key :
      (owner id user_id task_id : Text)
      → (text_eq owner user_id && text_eq id task_id) ≡ true
      → (owner ≡ user_id) × (id ≡ task_id)
  same-key owner id user_id task_id h =
      ground (arith, text_eq_iff owner user_id, text_eq_iff id task_id)

  stored-keeps :
      (now : Time) (task : Task) (s : Store) (user_id task_id : Text)
      → IsThrough s
      → HasStatus user_id task_id pruned s
      → HasStatus user_id task_id pruned (update_task u (pruned_task now task) s).1
  stored-keeps now task s user_id task_id through h =
      elim (Bool-cases (text_eq task.discord_user_id user_id && text_eq task.task_id task_id)) [
        | inl e ↦
            let (o, i) = same-key task.discord_user_id task.task_id user_id task_id e in
            by_key user_id task_id o i h
        | inr e ↦
            let (row, f, g) = h in
            (row, update_task-row u (pruned_task now task) s user_id task_id through e ∙ f, g)
      ]
    where
      by_key :
          (user_id task_id : Text)
          → task.discord_user_id ≡ user_id
          → task.task_id ≡ task_id
          → HasStatus user_id task_id pruned s
          → HasStatus user_id task_id pruned (update_task u (pruned_task now task) s).1
      by_key user_id task_id o i h =
          subst
            (λ (x : Text).
              HasStatus x task_id pruned s
              → HasStatus x task_id pruned (update_task u (pruned_task now task) s).1)
            o
            (subst
              (λ (y : Text).
                HasStatus task.discord_user_id y pruned s
                → HasStatus task.discord_user_id y pruned
                    (update_task u (pruned_task now task) s).1)
              i (stored-keeps_same now task s through))
            h

  -- The worktree of a task is gone: it had none, or its row is pruned.
  abbrev pub IsGone : Task → Store → Type 0
  IsGone task s =
      (is_empty (trim_space task.worktree_path) ≡ true)
      ⊎ HasStatus task.discord_user_id task.task_id pruned s

  -- What a round of the loop does.
  pub record Round (task : Task) (s : Store) (r : List Error × Store) : Type 0 where
    pub through : IsThrough r.1
    pub others :
        (user_id task_id : Text)
        → IsOther task.discord_user_id task.task_id user_id task_id
        → row_of user_id task_id r.1 ≡ row_of user_id task_id s
    pub keeps :
        (user_id task_id : Text)
        → HasStatus user_id task_id pruned s
        → HasStatus user_id task_id pruned r.1
    pub gone : r.0 ≡ [] → IsGone task r.1

  pub keep_row :
      (s t : Store) (user_id task_id : Text)
      → Leaves s t
      → row_of user_id task_id t ≡ row_of user_id task_id s
  keep_row s t user_id task_id l = ap (first (is_task user_id task_id)) l.tasks

  pub keep_status :
      (s t : Store) (user_id task_id : Text)
      → Leaves s t
      → HasStatus user_id task_id pruned s
      → HasStatus user_id task_id pruned t
  keep_status s t user_id task_id l (row, e, h) = (row, keep_row s t user_id task_id l ∙ e, h)

  persist-Round :
      (now : Time) (task : Task) (s t : Store)
      → IsThrough t
      → Leaves s t
      → Round task s (persist_errors task (update_task u (pruned_task now task) t))
  persist-Round now task s t through l = by_result (update_task u (pruned_task now task) t) refl
    where
      by_result :
          (r : Result (Unit {0}) × Store)
          → update_task u (pruned_task now task) t ≡ r
          → Round task s (persist_errors task r)
      by_result (ok x, v) e = record {
        through =
            rw (sym (ap (λ r. r.1) e)) (update_task-IsThrough u (pruned_task now task) t through);
        others = λ user_id task_id h. rw (sym (ap (λ r. r.1) e)) (
            update_task-row u (pruned_task now task) t user_id task_id through h
            ∙ keep_row s t user_id task_id l);
        keeps = λ user_id task_id h.
            rw (sym (ap (λ r. r.1) e)) (
              stored-keeps now task t user_id task_id through
                (keep_status s t user_id task_id l h));
        gone = λ h.
            inr (rw (sym (ap (λ r. r.1) e)) (stored-pruned now task t through (ap (λ r. r.0) e)));
      }
      by_result (err x, v) e = record {
        through =
            rw (sym (ap (λ r. r.1) e)) (update_task-IsThrough u (pruned_task now task) t through);
        others = λ user_id task_id h. rw (sym (ap (λ r. r.1) e)) (
            update_task-row u (pruned_task now task) t user_id task_id through h
            ∙ keep_row s t user_id task_id l);
        keeps = λ user_id task_id h.
            rw (sym (ap (λ r. r.1) e)) (
              stored-keeps now task t user_id task_id through
                (keep_status s t user_id task_id l h));
        gone = λ h. absurd (ground arith);
      }

  still-Round :
      (task : Task) (s t : Store) (errors : List Error)
      → IsThrough t
      → Leaves s t
      → (errors ≡ [] → IsGone task t)
      → Round task s (errors, t)
  still-Round task s t errors through l g = record {
    through = through;
    others = λ user_id task_id h. keep_row s t user_id task_id l;
    keeps = λ user_id task_id h. keep_status s t user_id task_id l h;
    gone = g;
  }

  removed-Round :
      (task : Task) (s : Store) (r : Result Text × Store)
      → IsThrough r.1
      → Leaves s r.1
      → Round task s (removed m task r)
  removed-Round task s (err e, t) through l =
      still-Round task s t _ through l (λ h. absurd (ground arith))
  removed-Round task s (ok out, t) through l =
      let (now, t1) = base.clock t in
      let k = apart.reads t in
      persist-Round now task s t1 (k.through through) (Leaves-trans s t t1 l k)

  -- A round spares the other rows, and what is pruned stays so; with no error the worktree is gone.
  pub prune_task-Round :
      (path : Text) (task : Task) (s : Store)
      → IsThrough s
      → Round task s (prune_task m path task s)
  prune_task-Round path task s through =
      elim (Bool-cases (is_empty (trim_space task.worktree_path))) [
        | inl e ↦ rw e (still-Round task s s [] through (Leaves-refl s) (λ h. inl e))
        | inr e ↦
            let l = (git-IsQuiet u base apart path _).leaves s in
            rw e (removed-Round task s _ (l.through through) l)
      ]
