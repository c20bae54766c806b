-- ===== src/TaskOverride.antt =====
-- internal/app/task_override.go: messages that begin with `task:<name>`.
pub mod Outcomes
pub mod RoundTrip
pub mod Tests
use claw.Prelude.{
  ℕ, ◌≡◌, Bool, true, false, not, ◌&&◌, ◌||◌, Option, none, some, List, [], ◌∷◌, ◌==◌,
  if◌then◌else◌,
}
use claw.Prelude.Text.{Text, codes, is_empty, trim_space, cut_prefix}
use claw.TaskName.{validate_task_name}

pub record ParsedTaskOverride : Type 0 where
  pub matched : Bool
  pub task_name : Text
  pub prompt : Text
  pub reject_message : Text

-- ' ', '\t', '\n' and '\r'
abbrev pub ends_name : ℕ → Bool
ends_name c = c == 32 || c == 9 || c == 10 || c == 13

-- The loop that finds `nameEnd`: the remainder cut there.
unfoldable pub split_name : Text → Text × Text
split_name [] = ([], [])
split_name (c ∷ s) =
    let (name, rest) = split_name s in if ends_name c then ([], c ∷ s) else (c ∷ name, rest)

unfoldable pub invalid_override : Text
invalid_override =
    codes
      "Invalid task override. Use `task:<name>` with a slug-style task name such as `task:release-bot-v1`."

unfoldable pub empty_override : Text
empty_override = codes "Task override messages need body text or at least one image attachment."

abbrev pub plain : Text → ParsedTaskOverride
plain prompt = record { matched = false; task_name = []; prompt = prompt; reject_message = [] }

abbrev pub reject : Text → ParsedTaskOverride
reject text = record { matched = false; task_name = []; prompt = []; reject_message = text }

abbrev pub override : Text → Text → ParsedTaskOverride
override name prompt = record {
  matched = true;
  task_name = name;
  prompt = prompt;
  reject_message = [];
}

-- The part behind the prefix, cut into the name and the rest.
unfoldable pub parse_named : Text × Text → Bool → ParsedTaskOverride
parse_named (name, rest) has_images = elim (validate_task_name name) [
  | some error ↦ reject invalid_override
  | none ↦
      let prompt = trim_space rest in
      if is_empty prompt && not has_images then reject empty_override else override name prompt
]

unfoldable pub parse_remainder : Text → Bool → ParsedTaskOverride
unfolding parse_named
parse_remainder remainder has_images =
    if is_empty remainder
    then reject invalid_override
    else parse_named (split_name remainder) has_images

unfoldable pub parse_task_override : Text → Bool → ParsedTaskOverride
unfolding parse_remainder
parse_task_override content has_images =
    let trimmed = trim_space content in
    elim (cut_prefix trimmed (codes "task:")) [
      | none ↦ plain trimmed
      | some remainder ↦ parse_remainder remainder has_images
    ]
