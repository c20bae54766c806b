-- ===== src/Workspace.antt =====
-- internal/app/task_workspace.go: what the manager of the worktrees is built with, how it calls git,
-- and the names of its paths. The locks make each operation one step.
pub mod Names
pub mod Repository
pub mod Worktrees
pub mod Rows
pub mod Quiet
pub mod Ready
pub mod Pruning
pub mod Retention
pub mod Tests
use claw.Prelude.{
  ℕ, ◌+◌, ◌≡◌, Bool, true, false, ◌&&◌, ◌||◌, Option, none, some, List, [], ◌∷◌, ◌++◌, map, ltb,
  leb, ◌==◌, if◌then◌else◌,
}
use claw.Prelude.Text.{Text, codes, is_empty, trim_space}
use claw.Errors.{Error, message, exit_code, wrap, noted, Result, ok, err, Action}
use claw.TaskBranch.{Unicode}
use claw.Types.{Time}
use claw.Services.{ThreadStore}

-- How a command ended, with what it wrote to its two outputs.
pub record Command : Type 0 where
  pub failure : Option Error
  pub stdout : Text
  pub stderr : Text

-- What the manager is built with; `W` is the state of the world behind these calls. `git` runs the
-- executable with its arguments; the paths are those of path/filepath.
pub record Manager (W : Type 0) : Type 0 where
  pub store : ThreadStore W
  pub source_repository : Text
  pub data_dir : Text
  pub closed_retention : ℕ
  pub git : List Text → W → Command × W
  pub mkdir_all : Text → Action W (Unit {0})
  pub stat : Text → Action W (Unit {0})
  pub remove_all : Text → Action W (Unit {0})
  pub clock : W → Time × W
  pub clean : Text → Text
  pub base : Text → Text
  pub dir : Text → Text
  pub join : Text → Text → Text
  pub source_hash : Text → Text
  pub equal_fold : Text → Text → Bool
  pub quote : Text → Text
  pub unicode : Unicode

abbrev pub default_closed_task_retention : ℕ
default_closed_task_retention = 15

-- strings.Join with a space
unfoldable pub join_words : List Text → Text
join_words [] = []
join_words (w ∷ []) = w
join_words (w ∷ v ∷ rest) = w ++ (b' ' ∷ join_words (v ∷ rest))

-- What a failed command wrote, to its error output or else to its output.
abbrev pub command_message : Command → Text
command_message c =
    if is_empty (trim_space c.stderr) then trim_space c.stdout else trim_space c.stderr

abbrev pub command_error : Text → Text → Error → Error
command_error context t e = if is_empty t then wrap context e else wrap context (noted e t)

abbrev pub git_result : Text → Command → Option Error → Result Text
git_result context c none = ok (trim_space c.stdout)
git_result context c (some e) = err (command_error context (command_message c) e)

abbrev pub ended_with : Text → Command → Result Text
ended_with context c = git_result context c c.failure

-- A letter, a digit or one of the marks that stay.
abbrev pub repository_char : ℕ → ℕ
repository_char r =
    if leb b'a' r && leb r b'z'
    then r
    else if leb b'A' r && leb r b'Z'
    then r + 32
    else if leb b'0' r && leb r b'9'
    then r
    else if r == b'-' || r == b'_' || r == b'.'
    then r
    else b'-'

abbrev pub is_edge : ℕ → Bool
is_edge c = c == b'-' || c == b'.'

-- strings.Trim(s, "-.")
unfoldable pub trim_left_edges : Text → Text
trim_left_edges [] = []
trim_left_edges (c ∷ s) = if is_edge c then trim_left_edges s else c ∷ s

unfoldable pub cons_unedged : ℕ → Text → Text
cons_unedged c [] = if is_edge c then [] else c ∷ []
cons_unedged c (d ∷ s) = c ∷ d ∷ s

unfoldable pub trim_right_edges : Text → Text
unfolding cons_unedged
trim_right_edges [] = []
trim_right_edges (c ∷ s) = cons_unedged c (trim_right_edges s)

unfoldable pub sanitize_task_repository_name : Text → Text
unfolding trim_left_edges trim_right_edges
sanitize_task_repository_name name =
    if is_empty (trim_space name)
    then []
    else trim_right_edges (trim_left_edges (map repository_char (trim_space name)))

module _ {W : Type 0} (m : Manager W) where
  unfoldable pub run_git_in : Text → List Text → Action W Text
  run_git_in repository_path args w =
      let (c, w1) = m.git (codes "-C" ∷ repository_path ∷ args) w in
      (ended_with (codes "run git " ++ join_words args) c, w1)

  abbrev or_source : Text → Text
  or_source name = if is_empty name then codes "source-repository" else name

  unfoldable pub managed_repository_path : Text
  unfolding sanitize_task_repository_name
  managed_repository_path =
      let name = or_source (sanitize_task_repository_name (m.base (m.clean m.source_repository))) in
      m.join (m.join m.data_dir (codes "repos"))
        (name ++ (b'-' ∷ (m.source_hash (m.clean m.source_repository) ++ codes ".git")))

  unfoldable pub worktree_path : Text → Text
  worktree_path task_id = m.join (m.join m.data_dir (codes "worktrees")) task_id

  -- A command that tells by an exit code that there is none.
  abbrev pub found_unless : ℕ → Text → Result Text × W → Result Bool × W
  found_unless n context (ok out, w) = (ok true, w)
  found_unless n context (err e, w) =
      if (elim (exit_code e) [ some k ↦ k == n | none ↦ false ])
      then (ok false, w)
      else (err (wrap context e), w)

  unfoldable pub branch_exists : Text → Text → Action W Bool
  unfolding run_git_in
  branch_exists repository_path branch_name w = found_unless 1 (codes "check branch existence") (
      run_git_in repository_path
        (codes "show-ref"
          ∷ codes "--verify"
          ∷ codes "--quiet"
          ∷ (codes "refs/heads/" ++ branch_name)
          ∷ [])
        w)

  unfoldable pub remote_exists_in : Text → Text → Action W Bool
  unfolding run_git_in
  remote_exists_in repository_path remote_name w =
      found_unless 2 (codes "check remote existence")
        (run_git_in repository_path (codes "remote" ∷ codes "get-url" ∷ remote_name ∷ []) w)

  unfoldable pub ref_exists : Text → Text → Action W Bool
  unfolding run_git_in
  ref_exists repository_path ref w = found_unless 1 (codes "check ref existence " ++ m.quote ref) (
      run_git_in repository_path
        (codes "rev-parse" ∷ codes "--verify" ∷ codes "--quiet" ∷ (ref ++ codes "^{commit}") ∷ [])
        w)

  abbrev pub value_or_empty : Text → Result Text × W → Result Text × W
  value_or_empty key (ok value, w) = (ok (trim_space value), w)
  value_or_empty key (err e, w) =
      if (elim (exit_code e) [ some k ↦ k == 1 | none ↦ false ])
      then (ok [], w)
      else (err (wrap (codes "load git config " ++ key) e), w)

  unfoldable pub optional_git_config_value : Text → Text → Action W Text
  unfolding run_git_in
  optional_git_config_value repository_path key w =
      value_or_empty key (run_git_in repository_path (codes "config" ∷ codes "--get" ∷ key ∷ []) w)
