-- ===== src/TaskName/Grammar.antt =====
-- The names that `ValidateTaskName` accepts, by a grammar: words of letters and digits with single
-- hyphens between them.
use claw.Prelude.{
  ℕ, zero, suc, ◌≤◌, ◌≡◌, refl, ◌≢◌, ◌↔◌, ◌⊎◌, inl, inr, Bool, true, false, ◌&&◌, none, some, [],
  ◌∷◌, arith, ◌==◌, if◌then◌else◌, length, All, Bool-cases,
}
use claw.Prelude.Text.{Text, codes, is_empty, trim_space, is_space}
use claw.Errors.{message}
use claw.TaskName.{
  is_lower, is_word, is_name_char, has_double_hyphen, match_body, match_task_name,
  validate_task_name,
}

pub data Slug : Text → Type 0 where
  word : (c : ℕ) → is_word c ≡ true → Slug (c ∷ [])
  more : (c : ℕ) {s : Text} → is_word c ≡ true → Slug s → Slug (c ∷ s)
  hyphen : (c h : ℕ) {s : Text} → is_word c ≡ true → h ≡ b'-' → Slug s → Slug (c ∷ h ∷ s)

abbrev pub StartsLower : Text → Type 0
StartsLower [] = ⊥
StartsLower (c ∷ s) = is_lower c ≡ true

-- One letter, or three to thirty-two characters.
pub record IsTaskName (name : Text) : Type 0 where
  pub slug : Slug name
  pub starts : StartsLower name
  pub fits : (length name ≡ 1) ⊎ ((3 ≤ length name) × (length name ≤ 32))

-- What the pattern says of the characters behind the first, without the count.
body_ok : Text → Bool
body_ok [] = false
body_ok (c ∷ []) = is_word c
body_ok (c ∷ d ∷ s) = is_name_char c && body_ok (d ∷ s)

match_body-body_ok :
    (n : ℕ) (s : Text) → (match_body n s ≡ true) ↔ ((body_ok s ≡ true) × (length s ≤ suc n))
unfolding match_body body_ok
match_body-body_ok n [] = (λ h. cc, λ h. cc)
match_body-body_ok n (c ∷ []) = (λ h. (h, omega arith), λ h. h.0)
match_body-body_ok zero (c ∷ d ∷ s) = (λ h. cc, λ h. absurd (omega arith))
match_body-body_ok (suc n) (c ∷ d ∷ s) =
    let (to, from) = match_body-body_ok n (d ∷ s) in
    (λ h. ground (arith, to), λ h. ground (arith, from))

-- A word character before text that the pattern accepts, with no two hyphens in a row.
Slug-of :
    (c : ℕ) (s : Text)
    → is_word c ≡ true
    → (s ≡ []) ⊎ (body_ok s ≡ true)
    → has_double_hyphen (c ∷ s) ≡ false
    → Slug (c ∷ s)
unfolding body_ok has_double_hyphen
Slug-of c [] w b n = word c w
Slug-of c (d ∷ []) w b n = more c w (word d (ground arith))
Slug-of c (d ∷ e ∷ []) w b n = elim (Bool-cases (d == b'-')) [
  | inl h ↦ hyphen c d w (ground arith) (word e (ground arith))
  | inr h ↦ more c w (more d (ground arith) (word e (ground arith)))
]
Slug-of c (d ∷ e ∷ f ∷ s) w b n = elim (Bool-cases (d == b'-')) [
  | inl h ↦
      hyphen c d w (ground arith)
        (Slug-of e (f ∷ s) (ground arith) (inr (ground arith)) (ground arith))
  | inr h ↦ more c w (Slug-of d (e ∷ f ∷ s) (ground arith) (inr (ground arith)) (ground arith))
]

pub Slug-ne-nil : {s : Text} → Slug s → s ≢ []
Slug-ne-nil (word c w) h = cc
Slug-ne-nil (more c w g) h = cc
Slug-ne-nil (hyphen c h w e g) k = cc

Slug-body_ok : {s : Text} → Slug s → body_ok s ≡ true
unfolding body_ok
Slug-body_ok (word c w) = w
Slug-body_ok (more c {s = []} w g) = absurd (Slug-ne-nil g refl)
Slug-body_ok (more c {s = d ∷ s} w g) = ground (arith, Slug-body_ok g)
Slug-body_ok (hyphen c h {s = []} w e g) = absurd (Slug-ne-nil g refl)
Slug-body_ok (hyphen c h {s = d ∷ s} w e g) = ground (arith, Slug-body_ok g)

Slug-starts : (c : ℕ) {s : Text} → Slug (c ∷ s) → is_word c ≡ true
Slug-starts c (word _ w) = w
Slug-starts c (more _ w g) = w
Slug-starts c (hyphen _ h w e g) = w

Slug-no_double : {s : Text} → Slug s → has_double_hyphen s ≡ false
unfolding has_double_hyphen
Slug-no_double (word c w) = refl
Slug-no_double (more c {s = []} w g) = absurd (Slug-ne-nil g refl)
Slug-no_double (more c {s = d ∷ s} w g) = ground (arith, Slug-no_double g)
Slug-no_double (hyphen c h {s = []} w e g) = absurd (Slug-ne-nil g refl)
Slug-no_double (hyphen c h {s = d ∷ s} w e g) = ground (arith, Slug-no_double g, Slug-starts d g)

-- The pattern and the test for two hyphens accept exactly the names of the grammar.
accepts :
    (c : ℕ) (s : Text)
    → has_double_hyphen (c ∷ s) ≡ false
    → match_task_name (c ∷ s) ≡ true
    → IsTaskName (c ∷ s)
unfolding match_task_name
accepts c [] n m = record { slug = word c (ground arith); starts = ground arith; fits = inl refl }
accepts c (d ∷ []) n m = absurd (ground arith)
accepts c (d ∷ e ∷ s) n m =
    let (body, short) = (match_body-body_ok 29 (e ∷ s)).0 (ground arith) in
    record {
      slug = Slug-of c (d ∷ e ∷ s) (ground arith) (inr (unfold body_ok in ground arith)) n;
      starts = ground arith;
      fits = inr (omega arith, omega arith);
    }

accepted : (c : ℕ) (s : Text) → IsTaskName (c ∷ s) → match_task_name (c ∷ s) ≡ true
unfolding match_task_name body_ok
accepted c [] h = ground (arith, h.starts)
accepted c (d ∷ []) h = absurd (omega (arith, h.fits))
accepted c (d ∷ e ∷ s) h =
    let body = Slug-body_ok h.slug in
    let rest = (match_body-body_ok 29 (e ∷ s)).1 (ground arith, omega (arith, h.fits)) in
    ground (arith, h.starts)

-- The tests of `ValidateTaskName` on the trimmed name.
decided :
    (s : Text)
    → ((if is_empty s
          then some (message (codes "task name must not be empty"))
          else if has_double_hyphen s
          then some (message (codes "invalid task name"))
          else if match_task_name s
          then none
          else some (message (codes "invalid task name")))
        ≡ none)
      ↔ IsTaskName s
unfolding is_empty
decided [] = (λ h. cc, λ h. absurd h.starts)
decided (c ∷ s) = (
  λ h. accepts c s (ground arith) (ground arith),
  λ h. rw (Slug-no_double h.slug, accepted c s h),
)

-- A name is accepted exactly if, without the white space around it, it is words of lower-case
-- letters and digits with single hyphens between them, it starts with a letter, and it is one
-- character or 3 to 32 characters long.
pub validate_task_name_iff :
    (name : Text) → (validate_task_name name ≡ none) ↔ IsTaskName (trim_space name)
unfolding validate_task_name
validate_task_name_iff name = decided (trim_space name)

Slug-All : {s : Text} → Slug s → All (λ c. is_name_char c ≡ true) s
Slug-All (word c w) = (rw w, tt)
Slug-All (more c w g) = (rw w, Slug-All g)
Slug-All (hyphen c h w e g) = (rw w, (ground arith, Slug-All g))

-- A name of the grammar has only lower-case letters, digits and hyphens.
pub IsTaskName-All : {name : Text} → IsTaskName name → All (λ c. is_name_char c ≡ true) name
IsTaskName-All h = Slug-All h.slug

name_char-not-space : (c : ℕ) → is_name_char c ≡ true → is_space c ≡ false
unfolding is_space
name_char-not-space c h = ground arith

pub All-not-space :
    (s : Text) → All (λ c. is_name_char c ≡ true) s → All (λ c. is_space c ≡ false) s
All-not-space [] h = tt
All-not-space (c ∷ s) h = (name_char-not-space c h.0, All-not-space s h.1)
