-- ===== src/TaskName.antt =====
-- internal/app/task_name.go: the names that a task may have.
pub mod Grammar
pub mod Tests
use claw.Prelude.{
  ℕ, zero, suc, ◌≡◌, Bool, true, false, ◌&&◌, ◌||◌, Option, none, some, List, [], ◌∷◌, leb, ◌==◌,
  if◌then◌else◌,
}
use claw.Prelude.Text.{Text, codes, is_empty, trim_space}
use claw.Errors.{Error, message}

abbrev pub is_lower : ℕ → Bool
is_lower c = leb b'a' c && leb c b'z'

-- [a-z0-9]
abbrev pub is_word : ℕ → Bool
is_word c = is_lower c || (leb b'0' c && leb c b'9')

-- [a-z0-9-]
abbrev pub is_name_char : ℕ → Bool
is_name_char c = is_word c || c == b'-'

-- strings.Contains(name, "--")
unfoldable pub has_double_hyphen : Text → Bool
has_double_hyphen [] = false
has_double_hyphen (c ∷ []) = false
has_double_hyphen (c ∷ d ∷ s) = (c == b'-' && d == b'-') || has_double_hyphen (d ∷ s)

-- [a-z0-9-]{0,n}[a-z0-9]$
unfoldable pub match_body : ℕ → Text → Bool
match_body n [] = false
match_body n (c ∷ []) = is_word c
match_body zero (c ∷ d ∷ s) = false
match_body (suc n) (c ∷ d ∷ s) = is_name_char c && match_body n (d ∷ s)

-- (?:[a-z0-9-]{1,30}[a-z0-9])?$
unfoldable pub match_rest : Text → Bool
unfolding match_body
match_rest [] = true
match_rest (c ∷ s) = is_name_char c && match_body 29 s

-- taskNamePattern.MatchString
unfoldable pub match_task_name : Text → Bool
unfolding match_rest
match_task_name [] = false
match_task_name (c ∷ s) = is_lower c && match_rest s

-- The error, or none.
unfoldable pub validate_task_name : Text → Option Error
unfolding match_task_name has_double_hyphen
validate_task_name task_name =
    let name = trim_space task_name in
    if is_empty name
    then some (message (codes "task name must not be empty"))
    else if has_double_hyphen name
    then some (message (codes "invalid task name"))
    else if match_task_name name
    then none
    else some (message (codes "invalid task name"))
