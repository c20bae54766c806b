-- ===== src/TaskOverride/RoundTrip.antt =====
-- A message composed with an override is read back.
use claw.Prelude.{ℕ, ◌≡◌, refl, ◌≢◌, Bool, true, none, [], ◌∷◌, ◌++◌, arith, All}
use claw.Prelude.Text.{
  is_space, Text, codes, is_empty, trim_space, trim_left, trim_right-append, IsTrimmed,
  IsTrimmed-of_All, trim_space-IsTrimmed, cut_prefix-append,
}
use claw.TaskName.{is_name_char, validate_task_name}
use claw.TaskName.Grammar.{IsTaskName, IsTaskName-All, All-not-space, validate_task_name_iff}
use claw.TaskOverride.{override, parse_named, parse_task_override}
use claw.TaskOverride.Outcomes.{IsNameText, split_name-append, parse_remainder-lem}

All-IsNameText : (s : Text) → All (λ c. is_name_char c ≡ true) s → IsNameText s
All-IsNameText [] h = tt
All-IsNameText (c ∷ s) h = (ground (arith, h.0), All-IsNameText s h.1)

-- The message that asks for a task by name.
abbrev pub compose : Text → Text → Text
compose name prompt = codes "task:" ++ (name ++ 32 ∷ prompt)

append-cons-ne-nil : (s : Text) (c : ℕ) (t : Text) → s ++ c ∷ t ≢ []
append-cons-ne-nil [] c t e = cc
append-cons-ne-nil (d ∷ s) c t e = cc

compose-IsTrimmed :
    (name prompt : Text) → IsTrimmed prompt → prompt ≢ [] → IsTrimmed (compose name prompt)
unfolding codes trim_left
compose-IsTrimmed name prompt t n = record {
  starts = unfold is_space in refl;
  ends =
      trim_right-append (116 ∷ 97 ∷ 115 ∷ 107 ∷ 58 ∷ []) (name ++ 32 ∷ prompt)
        (trim_right-append name (32 ∷ prompt) (trim_right-append (32 ∷ []) prompt t.ends n)
          (λ e. cc))
        (append-cons-ne-nil name 32 prompt);
}

trim_space_behind : (prompt : Text) → IsTrimmed prompt → trim_space (32 ∷ prompt) ≡ prompt
unfolding trim_space trim_left is_space
trim_space_behind prompt t = rw (t.starts, t.ends)

parse_named-override :
    (name rest prompt : Text) (has_images : Bool)
    → validate_task_name name ≡ none
    → trim_space rest ≡ prompt
    → prompt ≢ []
    → parse_named (name, rest) has_images ≡ override name prompt
unfolding parse_named is_empty
parse_named-override name rest [] has_images valid t n = absurd (n refl)
parse_named-override name rest (c ∷ s) has_images valid t n = rw (valid, parse_named, t)

-- Composing a message from a name of the grammar and a trimmed prompt that is not empty, and
-- parsing it, gives the name and the prompt back.
pub parse-compose :
    (name prompt : Text) (has_images : Bool)
    → IsTaskName name
    → IsTrimmed prompt
    → prompt ≢ []
    → parse_task_override (compose name prompt) has_images ≡ override name prompt
unfolding parse_task_override
parse-compose name prompt has_images h t n =
    let named = IsTaskName-All h in
    let valid =
      (validate_task_name_iff name).1
        (rw (trim_space-IsTrimmed (IsTrimmed-of_All name (All-not-space name named))) h) in
    rw
      (
        parse_task_override,
        trim_space-IsTrimmed (compose-IsTrimmed name prompt t n),
        cut_prefix-append (codes "task:"),
        parse_remainder-lem,
        split_name-append name (32 ∷ prompt) (All-IsNameText name named) refl,
      )
      (parse_named-override name (32 ∷ prompt) prompt has_images valid (trim_space_behind prompt t)
        n)
