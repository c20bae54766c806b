-- ===== src/TaskBranch/Slugs.antt =====
-- The branch of a task with a valid name.
use claw.Prelude.{
  inl, inr, ℕ, ◌≡◌, ◌≢◌, refl, ap, ◌∙◌, Bool, true, false, ◌||◌, [], ◌∷◌, ◌++◌, map, arith,
  append_assoc, Bool-cases,
}
use claw.Prelude.Text.{Text, codes, is_empty, trim_space-IsTrimmed, IsTrimmed-of_All}
use claw.TaskName.{is_lower, is_word}
use claw.TaskName.Grammar.{
  Slug, word, more, hyphen, IsTaskName, IsTaskName-All, Slug-ne-nil, All-not-space,
}
use claw.TaskBranch.{
  Unicode, IsUnicode, trim_left_hyphens, trim_right_hyphens, cons_unhyphened, slug_from,
  task_branch_slug, default_task_branch_name,
}

is_empty-concat : (s : Text) (c : ℕ) → is_empty (s ++ c ∷ []) ≡ false
unfolding is_empty
is_empty-concat [] c = refl
is_empty-concat (d ∷ s) c = refl

is_empty-IsTaskName : {name : Text} → IsTaskName name → is_empty name ≡ false
unfolding is_empty
is_empty-IsTaskName {name = []} h = absurd h.starts
is_empty-IsTaskName {name = c ∷ s} h = refl

cons_unhyphened-ne-nil : (c : ℕ) {s : Text} → s ≢ [] → cons_unhyphened c s ≡ c ∷ s
unfolding cons_unhyphened
cons_unhyphened-ne-nil c {s = []} h = absurd (h refl)
cons_unhyphened-ne-nil c {s = d ∷ s} h = refl

module _ (u : Unicode) (laws : IsUnicode u) where
  word-kept :
      (c : ℕ) → is_word c ≡ true → ((u.is_letter c || u.is_number c) ≡ true) × (u.to_lower c ≡ c)
  word-kept c w = elim (Bool-cases (is_lower c)) [
    | inl e ↦ let (letter, low) = laws.lower c e in (rw letter, low)
    | inr e ↦ let (number, low) = laws.digit c (ground arith) in (ground arith, low)
  ]

  slug_from-word :
      (out : Text) (last : Bool) (c : ℕ) (s : Text)
      → is_word c ≡ true
      → slug_from u out last (c ∷ s) ≡ slug_from u (out ++ c ∷ []) false s
  unfolding slug_from
  slug_from-word out last c s w = rw (word-kept c w).0

  slug_from-hyphen :
      (out : Text) (c h : ℕ) (s : Text)
      → h ≡ b'-'
      → slug_from u (out ++ c ∷ []) false (h ∷ s) ≡ slug_from u ((out ++ c ∷ []) ++ h ∷ []) true s
  unfolding slug_from
  slug_from-hyphen out c h s e = rw (e, laws.hyphen.0, laws.hyphen.1, is_empty-concat out c)

  -- The loop copies the words and the single hyphens between them.
  slug_from-Slug :
      {s : Text} (out : Text) (last : Bool) → Slug s → slug_from u out last s ≡ out ++ s
  slug_from-Slug out last (word c w) = slug_from-word out last c [] w ∙ (unfold slug_from in refl)
  slug_from-Slug out last (more c {s = s} w g) =
      rw (slug_from-word out last c s w, slug_from-Slug (out ++ c ∷ []) false g)
        (append_assoc out (c ∷ []) s)
  slug_from-Slug out last (hyphen c h {s = s} w e g) =
      rw
        (
          slug_from-word out last c (h ∷ s) w,
          slug_from-hyphen out c h s e,
          slug_from-Slug ((out ++ c ∷ []) ++ h ∷ []) true g,
        )
        (simp append_assoc)

  map-to_lower-Slug : {s : Text} → Slug s → map u.to_lower s ≡ s
  map-to_lower-Slug (word c w) = rw (word-kept c w).1
  map-to_lower-Slug (more c w g) = rw ((word-kept c w).1, map-to_lower-Slug g)
  map-to_lower-Slug (hyphen c h w e g) =
      rw ((word-kept c w).1, e, laws.hyphen.2, map-to_lower-Slug g)

  trim_left_hyphens-Slug : {s : Text} → Slug s → trim_left_hyphens s ≡ s
  unfolding trim_left_hyphens
  trim_left_hyphens-Slug (word c w) = ground arith
  trim_left_hyphens-Slug (more c w g) = ground arith
  trim_left_hyphens-Slug (hyphen c h w e g) = ground arith

  trim_right_hyphens-Slug : {s : Text} → Slug s → trim_right_hyphens s ≡ s
  unfolding trim_right_hyphens
  trim_right_hyphens-Slug (word c w) = ground arith
  trim_right_hyphens-Slug (more c w g) =
      rw (trim_right_hyphens-Slug g) (cons_unhyphened-ne-nil c (Slug-ne-nil g))
  trim_right_hyphens-Slug (hyphen c h w e g) =
      rw (trim_right_hyphens-Slug g, cons_unhyphened-ne-nil h (Slug-ne-nil g)) refl

  task_branch_slug-IsTaskName : (name : Text) → IsTaskName name → task_branch_slug u name ≡ name
  unfolding task_branch_slug
  task_branch_slug-IsTaskName name h =
      let named = IsTaskName-All h in
      rw
        (
          trim_space-IsTrimmed (IsTrimmed-of_All name (All-not-space name named)),
          map-to_lower-Slug h.slug,
          is_empty-IsTaskName h,
          slug_from-Slug [] false h.slug,
          trim_left_hyphens-Slug h.slug,
        )
        (trim_right_hyphens-Slug h.slug)

  -- Let the Unicode tables know the letters a to z, the digits and the hyphen.
  -- A task with a name of the grammar gets the branch `task/` followed by the name.
  pub default_task_branch_name-IsTaskName :
      (name task_id : Text)
      → IsTaskName name
      → default_task_branch_name u name task_id ≡ codes "task/" ++ name
  unfolding default_task_branch_name
  default_task_branch_name-IsTaskName name task_id h =
      ap (λ s. codes "task/" ++ s)
        (let slug = task_branch_slug-IsTaskName name h in
          rw (slug, is_empty-IsTaskName h, is_empty-IsTaskName h))
