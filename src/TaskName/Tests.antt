-- ===== src/TaskName/Tests.antt =====
-- Names that are accepted and refused.
use claw.Prelude.{◌≡◌, ◌≢◌, refl, none, some, ◌↔◌}
use claw.Prelude.Text.{Text, codes, trim_space}
use claw.Errors.{message}
use claw.TaskName.{validate_task_name}
use claw.TaskName.Grammar.{IsTaskName, validate_task_name_iff}

-- One letter is a name, as is a name of three; a name of two is none.
one_letter : validate_task_name (codes "a") ≡ none
unfolding validate_task_name claw.Prelude.Text.is_empty trim_space codes
one_letter = refl

two_letters : validate_task_name (codes "ab") ≡ some (message (codes "invalid task name"))
unfolding validate_task_name claw.Prelude.Text.is_empty trim_space codes
two_letters = refl

pub fix_bug-IsTaskName : IsTaskName (codes "fix-bug")
unfolding validate_task_name claw.Prelude.Text.is_empty trim_space codes
fix_bug-IsTaskName = (validate_task_name_iff (codes "fix-bug")).0 refl

validate_task_name_iff_example :
    (validate_task_name (codes " fix-bug ") ≡ none) ↔ IsTaskName (trim_space (codes " fix-bug "))
validate_task_name_iff_example = validate_task_name_iff (codes " fix-bug ")
