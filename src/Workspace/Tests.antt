-- ===== src/Workspace/Tests.antt =====
-- The manager of the worktrees over the SQLite store, with a git that does what it is told.
use claw.Prelude.{
  ℕ, ◌≤◌, ◌≡◌, refl, Bool, true, false, Option, none, some, List, [], ◌∷◌, ◌++◌, arith,
}
use claw.Prelude.Text.{Text, codes}
use claw.Errors.{ok, succeed}
use claw.Types.{Time, Task, closed, ready}
use claw.TaskBranch.Tests.{ascii}
use claw.Services.{sqlite_store}
use claw.Store.{Tables, Store, empty_tables, quiet}
use claw.Store.Tests.{store, task_at, task_id}
use claw.Store.Tasks.{list_closed_ready_tasks}
use claw.Workspace.{Manager, sanitize_task_repository_name}
use claw.Workspace.Names.{IsRepositoryName, sanitize-IsRepositoryName}
use claw.Workspace.Worktrees.{ensure_ready, prune_closed}
use claw.Workspace.Quiet.{IsApart, Leaves-refl, on_sqlite, succeed-IsQuiet}
use claw.Workspace.Ready.{Settled, ensure_ready-Settled}
use claw.Workspace.Retention.{Pruned, prune_closed-Pruned}

abbrev obedient : Manager Store
obedient = record {
  store = sqlite_store ascii;
  source_repository = codes "/src/39claw";
  data_dir = codes "/data";
  closed_retention = 1;
  git = λ args s. (record { failure = none; stdout = codes "origin/main"; stderr = [] }, s);
  mkdir_all = λ path. succeed tt;
  stat = λ path. succeed tt;
  remove_all = λ path. succeed tt;
  clock = λ s. (s.now, s);
  clean = λ path. path;
  base = λ path. path;
  dir = λ path. path;
  join = λ a b. a ++ (codes "/" ++ b);
  source_hash = λ path. codes "0123456789ab";
  equal_fold = λ a b. true;
  quote = λ t. t;
  unicode = ascii;
}

obedient-IsApart : IsApart obedient
obedient-IsApart = record {
  runs = λ args s. Leaves-refl s;
  makes = λ path. succeed-IsQuiet tt;
  looks = λ path. succeed-IsQuiet tt;
  removes = λ path. succeed-IsQuiet tt;
  reads = Leaves-refl;
}

sanitizes : sanitize_task_repository_name (codes " My Repo.git-") ≡ codes "my-repo.git"
unfolding sanitize_task_repository_name codes claw.Prelude.Text.is_empty
    claw.Prelude.Text.trim_space
sanitizes = refl

sanitize-IsRepositoryName_example :
    IsRepositoryName (sanitize_task_repository_name (codes " My Repo.git-"))
sanitize-IsRepositoryName_example = sanitize-IsRepositoryName (codes " My Repo.git-")

ensure_ready-Settled_example :
    Settled ascii obedient obedient-IsApart
      (task_at task_id 1000000000)
      store
      (ensure_ready (on_sqlite ascii obedient) (task_at task_id 1000000000) store)
unfolding claw.Prelude.first claw.Prelude.Text.text_eq codes
ensure_ready-Settled_example =
    ensure_ready-Settled ascii obedient obedient-IsApart (task_at task_id 1000000000)
      (task_at task_id 1000000000) store refl refl

-- Two closed tasks with worktrees, of which one is kept.
abbrev done_task : Text → Time → Task
done_task id at = record (task_at id at) {
  status = closed;
  worktree_status = ready;
  worktree_path = codes "/data/worktrees/" ++ id;
  closed_at = some at;
}

abbrev closed_store : Store
closed_store =
    quiet
      (record empty_tables {
        tasks = done_task task_id 1000000000 ∷ done_task (codes "late") 2000000000 ∷ [];
      })
      7

prune_closed-Pruned_example :
    (tasks : List Task) × ((list_closed_ready_tasks closed_store).0 ≡ ok tasks)
    × Pruned ascii obedient obedient-IsApart tasks closed_store
        (prune_closed (on_sqlite ascii obedient) closed_store)
prune_closed-Pruned_example = prune_closed-Pruned ascii obedient obedient-IsApart closed_store refl

prunes : (prune_closed (on_sqlite ascii obedient) closed_store).0 ≡ ok tt
unfolding prune_closed list_closed_ready_tasks claw.Store.driver claw.Store.query
    claw.Store.Tasks.order_by claw.Prelude.select claw.Store.Stamp.stamp_lt
    claw.Workspace.Repository.ensure_managed_repository claw.Workspace.remote_exists_in
    claw.Workspace.optional_git_config_value claw.Prelude.Text.is_empty claw.Prelude.Text.trim_space
    codes claw.Store.Tasks.update_task claw.Store.clock claw.Store.exec claw.Store.Tasks.require_row
    claw.Prelude.first claw.Prelude.Text.cons_trimmed claw.Prelude.Text.is_space
    claw.Prelude.Text.text_eq claw.Prelude.Text.trim_left claw.Prelude.Text.trim_right
    claw.Store.Stamp.suffix claw.Store.Stamp.text_lt claw.Store.Tasks.change_task
    claw.Store.Tasks.insert_by claw.Store.Tasks.with_defaults
    claw.Workspace.Repository.init_bare_repository claw.Workspace.Repository.is_bare_repository
    claw.Workspace.Repository.refresh_origin claw.Workspace.Repository.source_origin_config
    claw.Workspace.Repository.sync_managed_origin_config
    claw.Workspace.Repository.sync_managed_origin_push_url claw.Workspace.Worktrees.drop
    claw.Workspace.Worktrees.prune_tasks claw.Workspace.run_git_in
prunes = refl
