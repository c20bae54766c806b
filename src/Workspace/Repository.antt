-- ===== src/Workspace/Repository.antt =====
-- internal/app/task_workspace.go: the bare repository that the worktrees belong to.
use claw.Prelude.{Bool, true, false, not, Option, none, some, List, [], ◌∷◌, ◌++◌, if◌then◌else◌}
use claw.Prelude.Text.{Text, codes, is_empty, trim_space}
use claw.Errors.{
  Error, message, not_exist, is_error, wrap, Result, ok, err, Action, ◌>>=◌, ◌>>◌, or_wrap, succeed,
  fail, attempt,
}
use claw.Workspace.{
  Command, Manager, command_message, command_error, run_git_in, managed_repository_path, ref_exists,
  remote_exists_in, optional_git_config_value,
}

pub record GitRemoteConfig : Type 0 where
  pub url : Text
  pub push_url : Text

abbrev pub origin : Text
origin = codes "origin"

abbrev pub base_ref_candidates : List Text
base_ref_candidates =
    codes "origin/main" ∷ codes "origin/master" ∷ codes "main" ∷ codes "master" ∷ []

module _ {W : Type 0} (m : Manager W) where
  abbrev pub discard {ℓ} : {A : Type ℓ} → A → Action W (Unit {0})
  discard x = succeed tt

  abbrev pub load_origin : Bool → Action W GitRemoteConfig
  load_origin false = fail (
      message (
        codes "thread mode requires CLAW_CODEX_WORKDIR to have an origin remote: "
        ++ m.source_repository))
  load_origin true = do
    url ←
        or_wrap (codes "load source repository origin remote URL")
          (run_git_in m m.source_repository (codes "remote" ∷ codes "get-url" ∷ origin ∷ []))
    push_url ←
        or_wrap (codes "load source repository origin push URL")
          (optional_git_config_value m m.source_repository (codes "remote.origin.pushurl"))
    succeed (record { url = trim_space url; push_url = trim_space push_url })

  unfoldable pub source_origin_config : Action W GitRemoteConfig
  source_origin_config = do
    exists ←
        or_wrap (codes "check source repository origin remote")
          (remote_exists_in m m.source_repository origin)
    load_origin exists

  unfoldable pub is_bare_repository : Text → Action W Bool
  is_bare_repository repository_path = do
    value ←
        or_wrap (codes "check managed task repository type")
          (run_git_in m repository_path (codes "rev-parse" ∷ codes "--is-bare-repository" ∷ []))
    succeed (m.equal_fold (trim_space value) (codes "true"))

  abbrev pub initialized : Command → Option Error → Result (Unit {0})
  initialized c none = ok tt
  initialized c (some e) =
      err (command_error (codes "initialize managed task repository") (command_message c) e)

  unfoldable pub init_bare_repository : Text → Action W (Unit {0})
  init_bare_repository repository_path w =
      let (c, w1) = m.git (codes "init" ∷ codes "--bare" ∷ repository_path ∷ []) w in
      (initialized c c.failure, w1)

  abbrev pub unset_push_url : Text → Text → Action W (Unit {0})
  unset_push_url repository_path existing =
      if not (is_empty existing)
      then or_wrap (codes "clear managed task repository origin push URL") (
          run_git_in m repository_path
            (codes "config" ∷ codes "--unset-all" ∷ codes "remote.origin.pushurl" ∷ []))
        >>= discard
      else succeed tt

  unfoldable pub sync_managed_origin_push_url : Text → Text → Action W (Unit {0})
  sync_managed_origin_push_url repository_path push_url = do
    existing ←
        or_wrap (codes "check managed task repository origin push URL")
          (optional_git_config_value m repository_path (codes "remote.origin.pushurl"))
    unset_push_url repository_path existing
    (if is_empty (trim_space push_url)
        then succeed tt
        else or_wrap (codes "configure managed task repository origin push URL") (
            run_git_in m repository_path
              (codes "config" ∷ codes "remote.origin.pushurl" ∷ push_url ∷ []))
          >>= discard)

  abbrev pub set_origin : Text → Text → Bool → Action W Text
  set_origin repository_path url true =
      or_wrap (codes "update managed task repository origin remote URL")
        (run_git_in m repository_path (codes "remote" ∷ codes "set-url" ∷ origin ∷ url ∷ []))
  set_origin repository_path url false =
      or_wrap (codes "add managed task repository origin remote")
        (run_git_in m repository_path (codes "remote" ∷ codes "add" ∷ origin ∷ url ∷ []))

  unfoldable pub sync_managed_origin_config : Text → GitRemoteConfig → Action W (Unit {0})
  unfolding sync_managed_origin_push_url
  sync_managed_origin_config repository_path remote_config = do
    exists ←
        or_wrap (codes "check managed task repository origin remote")
          (remote_exists_in m repository_path origin)
    set_origin repository_path remote_config.url exists
    or_wrap (codes "configure managed task repository origin fetch refspec") (
        run_git_in m repository_path (
          codes "config"
          ∷ codes "--replace-all"
          ∷ codes "remote.origin.fetch"
          ∷ codes "+refs/heads/*:refs/remotes/origin/*"
          ∷ []))
    sync_managed_origin_push_url repository_path remote_config.push_url

  abbrev pub fetched : Text → Result Text → Action W (Unit {0})
  fetched repository_path (err e) = succeed tt
  fetched repository_path (ok out) =
      attempt (
        run_git_in m repository_path
          (codes "remote" ∷ codes "set-head" ∷ origin ∷ codes "--auto" ∷ []))
      >>= discard

  abbrev pub fetch_if : Text → Result Bool → Action W (Unit {0})
  fetch_if repository_path (err e) = succeed tt
  fetch_if repository_path (ok false) = succeed tt
  fetch_if repository_path (ok true) =
      attempt (run_git_in m repository_path (codes "fetch" ∷ origin ∷ codes "--prune" ∷ []))
      >>= fetched repository_path

  -- Its errors are only logged.
  unfoldable pub refresh_origin : Text → Action W (Unit {0})
  refresh_origin repository_path =
      attempt (remote_exists_in m repository_path origin) >>= fetch_if repository_path

  abbrev pub require_bare : Text → Bool → Action W (Unit {0})
  require_bare path true = succeed tt
  require_bare path false = fail (message (codes "managed task repository is not bare: " ++ path))

  -- The switch on what os.Stat gives.
  abbrev pub require_repository : Text → Result (Unit {0}) → Action W (Unit {0})
  require_repository path (ok x) = is_bare_repository path >>= require_bare path
  require_repository path (err e) =
      if is_error e not_exist
      then init_bare_repository path
      else fail (wrap (codes "stat managed task repository") e)

  unfoldable pub ensure_managed_repository : Action W Text
  unfolding source_origin_config is_bare_repository init_bare_repository refresh_origin
      sync_managed_origin_config
  ensure_managed_repository = do
    remote_config ← source_origin_config
    or_wrap (codes "create managed repository parent directory")
        (m.mkdir_all (m.dir (managed_repository_path m)))
    found ← attempt (m.stat (managed_repository_path m))
    require_repository (managed_repository_path m) found
    sync_managed_origin_config (managed_repository_path m) remote_config
    refresh_origin (managed_repository_path m)
    succeed (managed_repository_path m)

  abbrev pub verified_ref : Text → Result Bool → Action W (Option Text)
  verified_ref ref (ok true) = succeed (some ref)
  verified_ref ref (ok false) = succeed none
  verified_ref ref (err e) = succeed none

  abbrev pub head_ref : Text → Result Text → Action W (Option Text)
  head_ref repository_path (err e) = succeed none
  head_ref repository_path (ok ref) =
      if is_empty (trim_space ref)
      then succeed none
      else attempt (ref_exists m repository_path ref) >>= verified_ref ref

  unfoldable pub origin_head_ref : Text → Action W (Option Text)
  origin_head_ref repository_path =
      attempt (
        run_git_in m repository_path (
          codes "symbolic-ref"
          ∷ codes "--quiet"
          ∷ codes "--short"
          ∷ codes "refs/remotes/origin/HEAD"
          ∷ []))
      >>= head_ref repository_path

  -- The first of the candidates that is there.
  unfoldable pub first_ref : Text → List Text → Action W Text
  first_ref repository_path [] = fail (
      message (
        codes
          "detect task worktree base ref: expected origin/HEAD, origin/main, origin/master, main, or master"))
  first_ref repository_path (ref ∷ refs) =
      let rest = first_ref repository_path refs in
      ref_exists m repository_path ref >>= λ exists. if exists then succeed ref else rest

  abbrev pub detected : Text → Option Text → Action W Text
  detected repository_path (some ref) = succeed ref
  detected repository_path none = first_ref repository_path base_ref_candidates

  unfoldable pub detect_base_ref : Text → Action W Text
  unfolding origin_head_ref first_ref
  detect_base_ref repository_path = origin_head_ref repository_path >>= detected repository_path
