-- ===== src/TaskBranch.antt =====
-- internal/app/task_branch.go: the branch of a task. Go's Unicode tables are a parameter.
pub mod Slugs
pub mod Tests
use claw.Prelude.{
  ℕ, ◌≤◌, ◌≡◌, Bool, true, false, ◌&&◌, ◌||◌, List, [], ◌∷◌, ◌++◌, ◌==◌, if◌then◌else◌, map,
}
use claw.Prelude.Text.{Text, codes, is_empty, trim_space}
use claw.TaskName.{is_lower}

-- unicode.IsLetter, unicode.IsNumber and unicode.ToLower
pub record Unicode : Type 0 where
  pub is_letter : ℕ → Bool
  pub is_number : ℕ → Bool
  pub to_lower : ℕ → ℕ

-- What the tables say of the letters a to z and the digits, and that a hyphen is neither.
pub record IsUnicode (u : Unicode) : Type 0 where
  pub lower : (c : ℕ) → is_lower c ≡ true → (u.is_letter c ≡ true) × (u.to_lower c ≡ c)
  pub digit : (c : ℕ) → (b'0' ≤ c) × (c ≤ b'9') → (u.is_number c ≡ true) × (u.to_lower c ≡ c)
  pub hyphen : (u.is_letter b'-' ≡ false) × (u.is_number b'-' ≡ false) × (u.to_lower b'-' ≡ b'-')

-- strings.Trim(s, "-")
unfoldable pub trim_left_hyphens : Text → Text
trim_left_hyphens [] = []
trim_left_hyphens (c ∷ s) = if c == b'-' then trim_left_hyphens s else c ∷ s

unfoldable pub cons_unhyphened : ℕ → Text → Text
cons_unhyphened c [] = if c == b'-' then [] else c ∷ []
cons_unhyphened c (d ∷ s) = c ∷ d ∷ s

unfoldable pub trim_right_hyphens : Text → Text
unfolding cons_unhyphened
trim_right_hyphens [] = []
trim_right_hyphens (c ∷ s) = cons_unhyphened c (trim_right_hyphens s)

module _ (u : Unicode) where
  -- The loop of `taskBranchSlug`: `out` is what the builder holds.
  unfoldable pub slug_from : Text → Bool → Text → Text
  slug_from out last_was_separator [] = out
  slug_from out last_was_separator (r ∷ s) =
      let written = slug_from (out ++ r ∷ []) false s in
      let skipped = slug_from out last_was_separator s in
      let separated = slug_from (out ++ b'-' ∷ []) true s in
      if u.is_letter r || u.is_number r
      then written
      else if is_empty out || last_was_separator
      then skipped
      else separated

  unfoldable pub task_branch_slug : Text → Text
  unfolding slug_from trim_left_hyphens trim_right_hyphens
  task_branch_slug task_name =
      let normalized = map u.to_lower (trim_space task_name) in
      if is_empty normalized
      then []
      else trim_right_hyphens (trim_left_hyphens (slug_from [] false normalized))

  abbrev or_else : Text → Text → Text
  or_else s t = if is_empty s then t else s

  unfoldable pub default_task_branch_name : Text → Text → Text
  unfolding task_branch_slug
  default_task_branch_name task_name task_id =
      codes "task/"
      ++ or_else (or_else (task_branch_slug task_name) (trim_space task_id)) (codes "unnamed-task")
