-- ===== src/TaskOverride/Tests.antt =====
-- Messages with an override.
use claw.Prelude.{◌≡◌, ◌≢◌, refl, true, false, arith, ◌++◌}
use claw.Prelude.Text.{Text, codes, trim_space, IsTrimmed}
use claw.TaskName.Tests.{fix_bug-IsTaskName}
use claw.TaskOverride.{parse_task_override, override, reject, invalid_override}
use claw.TaskOverride.Outcomes.{Parses, parse_task_override-Parses}
use claw.TaskOverride.RoundTrip.{compose, parse-compose}

abbrev content : Text
content = codes "task:fix-bug\nrun the tests"

parsed : parse_task_override content false ≡ override (codes "fix-bug") (codes "run the tests")
unfolding parse_task_override claw.Prelude.Text.cut_prefix codes trim_space
    claw.Prelude.Text.is_empty claw.TaskName.validate_task_name claw.TaskOverride.split_name
parsed = refl

-- A no-break space does not end the name, and is trimmed off before the name is checked: the name
-- that is returned keeps it.
spaced :
    parse_task_override (codes "task:\u{a0}fix-bug go") false
    ≡ override (codes "\u{a0}fix-bug") (codes "go")
unfolding parse_task_override claw.Prelude.Text.cut_prefix codes trim_space
    claw.Prelude.Text.is_empty claw.TaskName.validate_task_name claw.TaskOverride.split_name
spaced = refl

parse_task_override-Parses_example :
    Parses (trim_space content) true (parse_task_override content true)
parse_task_override-Parses_example = parse_task_override-Parses content true

parse-compose_example :
    parse_task_override (compose (codes "fix-bug") (codes "go on")) false
    ≡ override (codes "fix-bug") (codes "go on")
unfolding codes claw.Prelude.Text.trim_left claw.Prelude.Text.trim_right
parse-compose_example =
    parse-compose (codes "fix-bug") (codes "go on") false fix_bug-IsTaskName
      (record { starts = refl; ends = refl }) (λ h. absurd (ground arith))
