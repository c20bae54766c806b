-- ===== src/Workspace/Quiet.antt =====
-- The calls of git and of the file system leave the table of tasks alone, and so do the steps that
-- are made of them.
use claw.Prelude.{ℕ, arith, ◌≡◌, refl, ◌∙◌, Bool, true, false, not, List, if◌then◌else◌}
use claw.Prelude.Text.{Text, is_empty, trim_space}
use claw.Errors.{
  Error, not_exist, is_error, Result, ok, err, Action, ◌>>=◌, or_wrap, attempt, succeed, fail,
  wrapped, continue_with,
}
use claw.TaskBranch.{Unicode}
use claw.Services.{sqlite_store}
use claw.Store.{Store}
use claw.Store.Scheduled.Admission.{IsThrough}
use claw.Workspace.{
  Manager, run_git_in, found_unless, value_or_empty, branch_exists, remote_exists_in, ref_exists,
  optional_git_config_value, managed_repository_path,
}
use claw.Workspace.Repository.{
  GitRemoteConfig, discard, load_origin, source_origin_config, is_bare_repository,
  init_bare_repository, sync_managed_origin_push_url, set_origin, sync_managed_origin_config,
  fetched, fetch_if, refresh_origin, require_bare, require_repository, ensure_managed_repository,
}

pub record Leaves (s t : Store) : Type 0 where
  pub tasks : t.tables.tasks ≡ s.tables.tasks
  pub through : IsThrough s → IsThrough t

pub record IsQuiet {A : Type 0} (m : Action Store A) : Type 0 where
  pub leaves : (s : Store) → Leaves s (m s).1

pub Leaves-refl : (s : Store) → Leaves s s
Leaves-refl s = record { tasks = refl; through = λ h. h }

pub Leaves-trans : (s t v : Store) → Leaves s t → Leaves t v → Leaves s v
Leaves-trans s t v k l = record {
  tasks = l.tasks ∙ k.tasks;
  through = λ h. l.through (k.through h);
}

-- The calls besides the store leave the tasks alone.
pub record IsApart (m : Manager Store) : Type 0 where
  pub runs : (args : List Text) (s : Store) → Leaves s (m.git args s).1
  pub makes : (path : Text) → IsQuiet (m.mkdir_all path)
  pub looks : (path : Text) → IsQuiet (m.stat path)
  pub removes : (path : Text) → IsQuiet (m.remove_all path)
  pub reads : (s : Store) → Leaves s (m.clock s).1

module _ {A B : Type 0} where
  pub bind-IsQuiet :
      (m : Action Store A) (k : A → Action Store B)
      → IsQuiet m
      → ((a : A) → IsQuiet (k a))
      → IsQuiet (m >>= k)
  bind-IsQuiet m k h g = record { leaves = λ s. by_result s (m s) (h.leaves s) }
    where
      by_result : (s : Store) (r : Result A × Store) → Leaves s r.1 → Leaves s (continue_with k r).1
      by_result s (ok a, t) l = Leaves-trans s t _ l ((g a).leaves t)
      by_result s (err e, t) l = l

pub fail-IsQuiet : (A : Type 0) (e : Error) → IsQuiet (fail {A = A} e)
fail-IsQuiet A e = record { leaves = Leaves-refl }

module _ {A : Type 0} where
  pub wrap-IsQuiet : (c : Text) (m : Action Store A) → IsQuiet m → IsQuiet (or_wrap c m)
  wrap-IsQuiet c m h = record { leaves = λ s. by_result s (m s) (h.leaves s) }
    where
      by_result : (s : Store) (r : Result A × Store) → Leaves s r.1 → Leaves s (wrapped c r).1
      by_result s (ok a, t) l = l
      by_result s (err e, t) l = l

  pub attempt-IsQuiet : (m : Action Store A) → IsQuiet m → IsQuiet (attempt m)
  attempt-IsQuiet m h = record { leaves = h.leaves }

  pub succeed-IsQuiet : (a : A) → IsQuiet (succeed a)
  succeed-IsQuiet a = record { leaves = Leaves-refl }

  pub if-IsQuiet :
      (b : Bool) (m k : Action Store A) → IsQuiet m → IsQuiet k → IsQuiet (if b then m else k)
  if-IsQuiet true m k h g = h
  if-IsQuiet false m k h g = g

-- The manager on the SQLite store.
abbrev pub on_sqlite : Unicode → Manager Store → Manager Store
on_sqlite u base = record base { store = sqlite_store u }

module _ (u : Unicode) (base : Manager Store) (apart : IsApart base) where
  abbrev m : Manager Store
  m = on_sqlite u base

  pub git-IsQuiet : (path : Text) (args : List Text) → IsQuiet (run_git_in m path args)
  unfolding run_git_in
  git-IsQuiet path args = record { leaves = λ s. apart.runs _ s }

  found_unless-state : (n : ℕ) (c : Text) (r : Result Text × Store) → (found_unless m n c r).1 ≡ r.1
  found_unless-state n c (ok out, s) = refl
  found_unless-state n c (err e, s) = ground arith

  pub branch_exists-IsQuiet : (path name : Text) → IsQuiet (branch_exists m path name)
  unfolding branch_exists
  branch_exists-IsQuiet path name = record {
    leaves = λ s. rw (found_unless-state 1 _ _) ((git-IsQuiet path _).leaves s);
  }

  remote_exists-IsQuiet : (path name : Text) → IsQuiet (remote_exists_in m path name)
  unfolding remote_exists_in
  remote_exists-IsQuiet path name = record {
    leaves = λ s. rw (found_unless-state 2 _ _) ((git-IsQuiet path _).leaves s);
  }

  pub ref_exists-IsQuiet : (path ref : Text) → IsQuiet (ref_exists m path ref)
  unfolding ref_exists
  ref_exists-IsQuiet path ref = record {
    leaves = λ s. rw (found_unless-state 1 _ _) ((git-IsQuiet path _).leaves s);
  }

  value_or_empty-state : (key : Text) (r : Result Text × Store) → (value_or_empty m key r).1 ≡ r.1
  value_or_empty-state key (ok out, s) = refl
  value_or_empty-state key (err e, s) = ground arith

  config_value-IsQuiet : (path key : Text) → IsQuiet (optional_git_config_value m path key)
  unfolding optional_git_config_value
  config_value-IsQuiet path key = record {
    leaves = λ s. rw (value_or_empty-state key _) ((git-IsQuiet path _).leaves s);
  }

  discard-IsQuiet : {A : Type 0} (a : A) → IsQuiet (discard m a)
  discard-IsQuiet a = succeed-IsQuiet tt

  load_origin-IsQuiet : (b : Bool) → IsQuiet (load_origin m b)
  load_origin-IsQuiet false = fail-IsQuiet GitRemoteConfig _
  load_origin-IsQuiet true = bind-IsQuiet _ _ (wrap-IsQuiet _ _ (git-IsQuiet _ _)) λ url.
      bind-IsQuiet _ _ (wrap-IsQuiet _ _ (config_value-IsQuiet _ _)) λ push_url. succeed-IsQuiet _

  source_origin_config-IsQuiet : IsQuiet (source_origin_config m)
  unfolding source_origin_config
  source_origin_config-IsQuiet =
      bind-IsQuiet _ _ (wrap-IsQuiet _ _ (remote_exists-IsQuiet _ _)) load_origin-IsQuiet

  is_bare-IsQuiet : (path : Text) → IsQuiet (is_bare_repository m path)
  unfolding is_bare_repository
  is_bare-IsQuiet path =
      bind-IsQuiet _ _ (wrap-IsQuiet _ _ (git-IsQuiet _ _)) λ value. succeed-IsQuiet _

  init_bare-IsQuiet : (path : Text) → IsQuiet (init_bare_repository m path)
  unfolding init_bare_repository
  init_bare-IsQuiet path = record { leaves = λ s. apart.runs _ s }

  push_url-IsQuiet : (path url : Text) → IsQuiet (sync_managed_origin_push_url m path url)
  unfolding sync_managed_origin_push_url
  push_url-IsQuiet path url =
      bind-IsQuiet _ _ (wrap-IsQuiet _ _ (config_value-IsQuiet _ _)) λ existing.
        bind-IsQuiet _ _
          (if-IsQuiet (not (is_empty existing)) _ _
            (bind-IsQuiet _ _ (wrap-IsQuiet _ _ (git-IsQuiet _ _)) discard-IsQuiet)
            (succeed-IsQuiet tt))
          λ x.
            if-IsQuiet (is_empty (trim_space url)) _ _ (succeed-IsQuiet tt)
              (bind-IsQuiet _ _ (wrap-IsQuiet _ _ (git-IsQuiet _ _)) discard-IsQuiet)

  set_origin-IsQuiet : (path url : Text) (b : Bool) → IsQuiet (set_origin m path url b)
  set_origin-IsQuiet path url true = wrap-IsQuiet _ _ (git-IsQuiet _ _)
  set_origin-IsQuiet path url false = wrap-IsQuiet _ _ (git-IsQuiet _ _)

  sync_origin-IsQuiet :
      (path : Text) (c : GitRemoteConfig) → IsQuiet (sync_managed_origin_config m path c)
  unfolding sync_managed_origin_config
  sync_origin-IsQuiet path c =
      bind-IsQuiet _ _ (wrap-IsQuiet _ _ (remote_exists-IsQuiet _ _)) λ exists.
        bind-IsQuiet _ _ (set_origin-IsQuiet path c.url exists) λ x.
          bind-IsQuiet _ _ (wrap-IsQuiet _ _ (git-IsQuiet _ _))
            λ y. push_url-IsQuiet path c.push_url

  fetched-IsQuiet : (path : Text) (r : Result Text) → IsQuiet (fetched m path r)
  fetched-IsQuiet path (err e) = succeed-IsQuiet tt
  fetched-IsQuiet path (ok out) =
      bind-IsQuiet _ _ (attempt-IsQuiet _ (git-IsQuiet _ _)) discard-IsQuiet

  fetch_if-IsQuiet : (path : Text) (r : Result Bool) → IsQuiet (fetch_if m path r)
  fetch_if-IsQuiet path (err e) = succeed-IsQuiet tt
  fetch_if-IsQuiet path (ok false) = succeed-IsQuiet tt
  fetch_if-IsQuiet path (ok true) =
      bind-IsQuiet _ _ (attempt-IsQuiet _ (git-IsQuiet _ _)) (fetched-IsQuiet path)

  refresh_origin-IsQuiet : (path : Text) → IsQuiet (refresh_origin m path)
  unfolding refresh_origin
  refresh_origin-IsQuiet path =
      bind-IsQuiet _ _ (attempt-IsQuiet _ (remote_exists-IsQuiet _ _)) (fetch_if-IsQuiet path)

  require_bare-IsQuiet : (path : Text) (b : Bool) → IsQuiet (require_bare m path b)
  require_bare-IsQuiet path true = succeed-IsQuiet tt
  require_bare-IsQuiet path false = fail-IsQuiet (Unit {0}) _

  require_repository-IsQuiet :
      (path : Text) (r : Result (Unit {0})) → IsQuiet (require_repository m path r)
  require_repository-IsQuiet path (ok x) =
      bind-IsQuiet _ _ (is_bare-IsQuiet path) (require_bare-IsQuiet path)
  require_repository-IsQuiet path (err e) =
      if-IsQuiet (is_error e not_exist) _ _ (init_bare-IsQuiet path) (fail-IsQuiet (Unit {0}) _)

  pub ensure_repository-IsQuiet : IsQuiet (ensure_managed_repository m)
  unfolding ensure_managed_repository
  ensure_repository-IsQuiet =
      let path = managed_repository_path m in
      bind-IsQuiet _ _ source_origin_config-IsQuiet λ c.
        bind-IsQuiet _ _ (wrap-IsQuiet _ _ (apart.makes _)) λ x.
          bind-IsQuiet _ _ (attempt-IsQuiet _ (apart.looks _)) λ found.
            bind-IsQuiet _ _ (require_repository-IsQuiet path found) λ y.
              bind-IsQuiet _ _ (sync_origin-IsQuiet path c)
                λ z. bind-IsQuiet _ _ (refresh_origin-IsQuiet path) λ w. succeed-IsQuiet path
