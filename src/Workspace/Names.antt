-- ===== src/Workspace/Names.antt =====
-- Which names the managed repositories get.
use claw.Prelude.{
  ℕ, ◌≡◌, inl, inr, Bool, true, false, ◌&&◌, ◌||◌, [], ◌∷◌, map, arith, leb, ◌==◌, Bool-cases, All,
}
use claw.Prelude.Text.{Text, is_empty, trim_space}
use claw.Workspace.{
  repository_char, is_edge, trim_left_edges, cons_unedged, trim_right_edges,
  sanitize_task_repository_name,
}

-- A small letter, a digit, a hyphen, an underscore or a dot.
abbrev pub is_repository_char : ℕ → Bool
is_repository_char c =
    (leb b'a' c && leb c b'z') || (leb b'0' c && leb c b'9') || c == b'-' || c == b'_' || c == b'.'

abbrev IsRepositoryChar : ℕ → Type 0
IsRepositoryChar c = is_repository_char c ≡ true

abbrev pub StartsInside : Text → Type 0
StartsInside [] = Unit
StartsInside (c ∷ s) = is_edge c ≡ false

abbrev pub EndsInside : Text → Type 0
EndsInside [] = Unit
EndsInside (c ∷ []) = is_edge c ≡ false
EndsInside (c ∷ d ∷ s) = EndsInside (d ∷ s)

-- Only such characters, with no hyphen and no dot at either end.
pub record IsRepositoryName (s : Text) : Type 0 where
  pub chars : All IsRepositoryChar s
  pub starts : StartsInside s
  pub ends : EndsInside s

repository_char_lem : (r : ℕ) → IsRepositoryChar (repository_char r)
repository_char_lem r = ground arith

map-chars : (s : Text) → All IsRepositoryChar (map repository_char s)
map-chars [] = tt
map-chars (c ∷ s) = (repository_char_lem c, map-chars s)

trim_left-chars : (s : Text) → All IsRepositoryChar s → All IsRepositoryChar (trim_left_edges s)
unfolding trim_left_edges
trim_left-chars [] h = tt
trim_left-chars (c ∷ s) h = elim (Bool-cases (is_edge c)) [
  | inl e ↦ rw e (trim_left-chars s h.1)
  | inr e ↦ rw e h
]

trim_left-starts : (s : Text) → StartsInside (trim_left_edges s)
unfolding trim_left_edges
trim_left-starts [] = tt
trim_left-starts (c ∷ s) = elim (Bool-cases (is_edge c)) [
  | inl e ↦ rw e (trim_left-starts s)
  | inr e ↦ rw e e
]

cons-chars :
    (c : ℕ) (s : Text)
    → IsRepositoryChar c
    → All IsRepositoryChar s
    → All IsRepositoryChar (cons_unedged c s)
unfolding cons_unedged
cons-chars c [] p h = elim (Bool-cases (is_edge c)) [ inl e ↦ rw e tt | inr e ↦ rw e (p, tt) ]
cons-chars c (d ∷ s) p h = (p, h)

cons-starts : (c : ℕ) (s : Text) → is_edge c ≡ false → StartsInside (cons_unedged c s)
unfolding cons_unedged
cons-starts c [] e = rw e e
cons-starts c (d ∷ s) e = e

cons-ends : (c : ℕ) (s : Text) → EndsInside s → EndsInside (cons_unedged c s)
unfolding cons_unedged
cons-ends c [] h = elim (Bool-cases (is_edge c)) [ inl e ↦ rw e tt | inr e ↦ rw e e ]
cons-ends c (d ∷ s) h = h

trim_right-chars : (s : Text) → All IsRepositoryChar s → All IsRepositoryChar (trim_right_edges s)
unfolding trim_right_edges
trim_right-chars [] h = tt
trim_right-chars (c ∷ s) h = cons-chars c (trim_right_edges s) h.0 (trim_right-chars s h.1)

trim_right-starts : (s : Text) → StartsInside s → StartsInside (trim_right_edges s)
unfolding trim_right_edges
trim_right-starts [] h = tt
trim_right-starts (c ∷ s) h = cons-starts c (trim_right_edges s) h

trim_right-ends : (s : Text) → EndsInside (trim_right_edges s)
unfolding trim_right_edges
trim_right-ends [] = tt
trim_right-ends (c ∷ s) = cons-ends c (trim_right_edges s) (trim_right-ends s)

-- Whatever the name of the source repository is, the sanitized name has only small letters, digits,
-- hyphens, underscores and dots, and neither starts nor ends with a hyphen or a dot.
pub sanitize-IsRepositoryName :
    (name : Text) → IsRepositoryName (sanitize_task_repository_name name)
unfolding sanitize_task_repository_name
sanitize-IsRepositoryName name = elim (Bool-cases (is_empty (trim_space name))) [
  | inl e ↦ rw e (record { chars = tt; starts = tt; ends = tt })
  | inr e ↦ rw e (
      let left = trim_left_edges (map repository_char (trim_space name)) in
      record {
        chars = trim_right-chars left (trim_left-chars _ (map-chars (trim_space name)));
        starts = trim_right-starts left (trim_left-starts (map repository_char (trim_space name)));
        ends = trim_right-ends left;
      })
]
