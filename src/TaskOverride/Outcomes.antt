-- ===== src/TaskOverride/Outcomes.antt =====
-- What `ParseTaskOverride` may return, for every content.
use claw.Prelude.{
  ◌≡◌, refl, ap, ◌∙◌, ◌≢◌, ◌⊎◌, inl, inr, Bool, true, false, not, ◌&&◌, none, [], ◌∷◌, ◌++◌, arith,
  All, Bool-cases, Option-cases,
}
use claw.Prelude.Text.{
  Text, codes, is_empty, is_empty_iff, trim_space, cut_prefix, cut_prefix_sound, cut_prefix-append,
}
use claw.TaskName.{validate_task_name}
use claw.TaskOverride.{
  ParsedTaskOverride, ends_name, split_name, invalid_override, empty_override, plain, reject,
  override, parse_named, parse_remainder, parse_task_override,
}

-- The rest of the message begins where the name ends.
abbrev pub IsRest : Text → Type 0
IsRest [] = Unit
IsRest (c ∷ s) = ends_name c ≡ true

abbrev pub IsNameText : Text → Type 0
IsNameText = All (λ c. ends_name c ≡ false)

-- The cut is the only one that leaves no separator in the name and one at the start of the rest.
pub split_name_lem :
    (s : Text)
    → (s ≡ (split_name s).0 ++ (split_name s).1)
      × IsNameText (split_name s).0
      × IsRest (split_name s).1
unfolding split_name
split_name_lem [] = (refl, tt, tt)
split_name_lem (c ∷ s) = elim (Bool-cases (ends_name c)) [
  | inl e ↦ rw e (refl, tt, e)
  | inr e ↦ let (whole, named, rest) = split_name_lem s in rw e (ap (◌∷◌ c) whole, (e, named), rest)
]

pub split_name-append :
    (name rest : Text) → IsNameText name → IsRest rest → split_name (name ++ rest) ≡ (name, rest)
unfolding split_name
split_name-append [] [] n r = refl
split_name-append [] (c ∷ s) n r = rw r
split_name-append (c ∷ name) rest (e, n) r = rw (split_name-append name rest n r, e)

-- The result of parsing a message that is trimmed.
pub data Parses (trimmed : Text) (has_images : Bool) : ParsedTaskOverride → Type 0 where
  no_prefix :
      {p : ParsedTaskOverride}
      → ((r : Text) → trimmed ≢ codes "task:" ++ r)
      → p ≡ plain trimmed
      → Parses trimmed has_images p
  bad_name :
      {p : ParsedTaskOverride} (name rest : Text)
      → trimmed ≡ codes "task:" ++ (name ++ rest)
      → IsNameText name
      → IsRest rest
      → validate_task_name name ≢ none
      → p ≡ reject invalid_override
      → Parses trimmed has_images p
  no_body :
      {p : ParsedTaskOverride} (name rest : Text)
      → trimmed ≡ codes "task:" ++ (name ++ rest)
      → IsNameText name
      → IsRest rest
      → validate_task_name name ≡ none
      → trim_space rest ≡ []
      → has_images ≡ false
      → p ≡ reject empty_override
      → Parses trimmed has_images p
  accept :
      {p : ParsedTaskOverride} (name rest : Text)
      → trimmed ≡ codes "task:" ++ (name ++ rest)
      → IsNameText name
      → IsRest rest
      → validate_task_name name ≡ none
      → (trim_space rest ≢ []) ⊎ (has_images ≡ true)
      → p ≡ override name (trim_space rest)
      → Parses trimmed has_images p

parse_named-Parses :
    (trimmed name rest : Text) (has_images : Bool)
    → trimmed ≡ codes "task:" ++ (name ++ rest)
    → IsNameText name
    → IsRest rest
    → Parses trimmed has_images (parse_named (name, rest) has_images)
unfolding parse_named
parse_named-Parses trimmed name rest has_images whole n r =
    elim (Option-cases (validate_task_name name)) [
      | inr (error, e) ↦ rw (e, parse_named) (bad_name name rest whole n r (λ valid. cc) refl)
      | inl e ↦ elim (Bool-cases (is_empty (trim_space rest) && not has_images)) [
        | inl b ↦
            rw (e, parse_named, b)
              (no_body name rest whole n r e ((is_empty_iff (trim_space rest)).0 (ground arith))
                (ground arith) refl)
        | inr b ↦ rw (e, parse_named, b) (accept name rest whole n r e (has_body has_images b) refl)
      ]
    ]
  where
    has_body :
        (images : Bool)
        → (is_empty (trim_space rest) && not images) ≡ false
        → (trim_space rest ≢ []) ⊎ (images ≡ true)
    has_body true b = inr refl
    has_body false b = inl (λ e. ground (arith, (is_empty_iff (trim_space rest)).1 e))

pub parse_remainder-lem :
    (s : Text) (has_images : Bool)
    → parse_remainder s has_images ≡ parse_named (split_name s) has_images
parse_remainder-lem [] has_images =
    unfold parse_remainder split_name validate_task_name is_empty trim_space in refl
parse_remainder-lem (c ∷ s) has_images = unfold parse_remainder is_empty in refl

cut_prefix_complete : (s p : Text) → cut_prefix s p ≡ none → (r : Text) → s ≢ p ++ r
cut_prefix_complete s p h r e = cc (h, cut_prefix-append p r, ap (λ t. cut_prefix t p) e)

-- Whatever the content, with white space trimmed off: without the prefix `task:` it is a plain
-- prompt; else it is the prefix, a name up to the first separator and a rest, and the result is
-- a rejection if the name is invalid, a rejection if the trimmed rest is empty and there is no
-- image, and otherwise the name with the trimmed rest as its prompt.
pub parse_task_override-Parses :
    (content : Text) (has_images : Bool)
    → Parses (trim_space content) has_images (parse_task_override content has_images)
unfolding parse_task_override
parse_task_override-Parses content has_images =
    elim (Option-cases (cut_prefix (trim_space content) (codes "task:"))) [
      | inl e ↦ rw (e, parse_task_override) (no_prefix (cut_prefix_complete _ _ e) refl)
      | inr (s, e) ↦
          let (whole, named, rest) = split_name_lem s in
          rw (e, parse_task_override, parse_remainder-lem s has_images)
            (parse_named-Parses _ (split_name s).0 (split_name s).1 has_images
              (cut_prefix_sound _ _ s e ∙ ap (◌++◌ (codes "task:")) whole) named rest)
    ]
