-- ===== src/TaskBranch/Tests.antt =====
-- Branches of tasks, with tables that know the ASCII letters.
use claw.Prelude.{ℕ, ◌≡◌, refl, ◌≤◌, ◌+◌, arith, leb, ◌&&◌, ◌||◌, if◌then◌else◌, ◌++◌}
use claw.Prelude.Text.{Text, codes}
use claw.TaskName.Tests.{fix_bug-IsTaskName}
use claw.TaskBranch.{Unicode, IsUnicode, default_task_branch_name}
use claw.TaskBranch.Slugs.{default_task_branch_name-IsTaskName}

abbrev pub ascii : Unicode
ascii = record {
  is_letter = λ c. (leb b'a' c && leb c b'z') || (leb b'A' c && leb c b'Z');
  is_number = λ c. leb b'0' c && leb c b'9';
  to_lower = λ c. if leb b'A' c && leb c b'Z' then c + 32 else c;
}

pub ascii-IsUnicode : IsUnicode ascii
ascii-IsUnicode = record {
  lower = λ c h. (ground arith, ground arith);
  digit = λ c (low, high). (ground arith, ground arith);
  hyphen = (refl, refl, refl);
}

branch :
    default_task_branch_name ascii (codes " Fix the  Bug! ") (codes "t1") ≡ codes "task/fix-the-bug"
unfolding default_task_branch_name codes claw.Prelude.Text.is_empty claw.Prelude.Text.trim_space
branch = refl

default_task_branch_name-IsTaskName_example :
    default_task_branch_name ascii (codes "fix-bug") (codes "t1") ≡ codes "task/" ++ codes "fix-bug"
default_task_branch_name-IsTaskName_example =
    default_task_branch_name-IsTaskName ascii ascii-IsUnicode (codes "fix-bug") (codes "t1")
      fix_bug-IsTaskName
