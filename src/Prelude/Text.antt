-- ===== src/Prelude/Text.antt =====
-- Text as the list of its code points, and what the program uses of Go's `strings` and `fmt`.
-- For text that is valid UTF-8 this is what a range over the string yields.
use Prim.Native.Char.{code}
use Prim.Native.Nat.{ℕ, zero, suc, ◌+◌, ◌/◌, ◌%◌}
use Prim.Native.String.{String}
use mathlib.Core.Path.{◌≡◌, refl}
use mathlib.Core.Logic.{◌↔◌, ◌≢◌, inl, inr}
use mathlib.Core.Bool.{Bool, true, false, ◌&&◌, ◌||◌}
use mathlib.Core.Option.{Option, none, some}
use mathlib.Core.List.{List, [], ◌∷◌, ◌++◌}
use native.Mathlib.Omega.{arith}
use claw.Prelude.Lists.{All}
use claw.Prelude.Tests.{ltb, leb, ◌==◌, if◌then◌else◌, Bool-cases}

abbrev pub Text : Type 0
Text = List ℕ

-- The code points of a literal.
unfoldable pub codes : String → Text
codes String.[] = []
codes (String.◌∷◌ c s) = code c ∷ codes s

unfoldable pub text_eq : Text → Text → Bool
text_eq [] [] = true
text_eq (c ∷ s) (d ∷ t) = c == d && text_eq s t
text_eq _ _ = false

pub text_eq_refl : (s : Text) → text_eq s s ≡ true
unfolding text_eq
text_eq_refl [] = refl
text_eq_refl (c ∷ s) = ground (arith, text_eq_refl s)

text_eq_sound : (s t : Text) → text_eq s t ≡ true → s ≡ t
unfolding text_eq
text_eq_sound [] [] h = refl
text_eq_sound [] (d ∷ t) h = cc
text_eq_sound (c ∷ s) [] h = cc
text_eq_sound (c ∷ s) (d ∷ t) h = ground (arith, text_eq_sound s t)

pub text_eq_iff : (s t : Text) → (text_eq s t ≡ true) ↔ (s ≡ t)
text_eq_iff s t = (text_eq_sound s t, λ e. subst_eq e)
  where
    subst_eq : s ≡ t → text_eq s t ≡ true
    subst_eq e = rw e (text_eq_refl t)

unfoldable pub is_empty : Text → Bool
is_empty [] = true
is_empty (c ∷ s) = false

pub is_empty_iff : (s : Text) → (is_empty s ≡ true) ↔ (s ≡ [])
unfolding is_empty
is_empty_iff [] = (λ _. refl, λ _. refl)
is_empty_iff (c ∷ s) = (λ h. cc, λ h. cc)

pub is_empty-ne : (s : Text) → s ≢ [] → is_empty s ≡ false
unfolding is_empty
is_empty-ne [] h = absurd (h refl)
is_empty-ne (c ∷ s) h = refl

-- unicode.IsSpace
unfoldable pub is_space : ℕ → Bool
is_space c =
    (leb 9 c && leb c 13)
    || c == 32
    || c == 0x85
    || c == 0xa0
    || c == 0x1680
    || (leb 0x2000 c && leb c 0x200a)
    || c == 0x2028
    || c == 0x2029
    || c == 0x202f
    || c == 0x205f
    || c == 0x3000

-- strings.TrimLeftFunc with unicode.IsSpace
unfoldable pub trim_left : Text → Text
unfolding is_space
trim_left [] = []
trim_left (c ∷ s) = if is_space c then trim_left s else c ∷ s

-- A code point in front of text that is trimmed on the right already.
unfoldable pub cons_trimmed : ℕ → Text → Text
unfolding is_space
cons_trimmed c [] = if is_space c then [] else c ∷ []
cons_trimmed c (d ∷ s) = c ∷ d ∷ s

-- strings.TrimRightFunc with unicode.IsSpace
unfoldable pub trim_right : Text → Text
unfolding cons_trimmed
trim_right [] = []
trim_right (c ∷ s) = cons_trimmed c (trim_right s)

-- strings.TrimSpace
unfoldable pub trim_space : Text → Text
unfolding trim_left trim_right
trim_space s = trim_right (trim_left s)

-- Text with no white space at either end.
pub record IsTrimmed (s : Text) : Type 0 where
  pub starts : trim_left s ≡ s
  pub ends : trim_right s ≡ s

pub trim_space-IsTrimmed : {s : Text} → IsTrimmed s → trim_space s ≡ s
unfolding trim_space
trim_space-IsTrimmed h = rw (h.starts, h.ends)

cons_trimmed-ne-nil : (c : ℕ) (s : Text) → s ≢ [] → cons_trimmed c s ≡ c ∷ s
unfolding cons_trimmed
cons_trimmed-ne-nil c [] h = absurd (h refl)
cons_trimmed-ne-nil c (d ∷ s) h = refl

-- What stands before text that ends without white space is kept.
pub trim_right-append : (s t : Text) → trim_right t ≡ t → t ≢ [] → trim_right (s ++ t) ≡ s ++ t
unfolding trim_right
trim_right-append [] t h n = h
trim_right-append (c ∷ s) t h n =
    rw (trim_right-append s t h n) (cons_trimmed-ne-nil c (s ++ t) (append-ne-nil s))
  where
    append-ne-nil : (u : Text) → u ++ t ≢ []
    append-ne-nil [] e = n e
    append-ne-nil (d ∷ u) e = cc

-- Text of which no character is white space is trimmed.
pub IsTrimmed-of_All : (s : Text) → All (λ c. is_space c ≡ false) s → IsTrimmed s
unfolding trim_left
IsTrimmed-of_All [] h = unfold trim_right in record { starts = refl; ends = refl }
IsTrimmed-of_All (c ∷ s) h = record { starts = rw h.0; ends = ends_all (c ∷ s) h }
  where
    ends_all : (t : Text) → All (λ c. is_space c ≡ false) t → trim_right t ≡ t
    ends_all [] k = unfold trim_right in refl
    ends_all (d ∷ []) k = unfold trim_right in rw k.0
    ends_all (d ∷ e ∷ t) k = trim_right-append (d ∷ []) (e ∷ t) (ends_all (e ∷ t) k.1) (λ x. cc)

cons_trimmed-trim_right :
    (c : ℕ) (s : Text) → trim_right s ≡ s → trim_right (cons_trimmed c s) ≡ cons_trimmed c s
unfolding trim_right cons_trimmed
cons_trimmed-trim_right c [] h = ground arith
cons_trimmed-trim_right c (d ∷ s) h = rw h refl

trim_right_idem : (s : Text) → trim_right (trim_right s) ≡ trim_right s
unfolding trim_right
trim_right_idem [] = refl
trim_right_idem (c ∷ s) = cons_trimmed-trim_right c (trim_right s) (trim_right_idem s)

-- Trimming on the right keeps that a text starts without white space.
trim_left-cons_trimmed :
    (c : ℕ) (s : Text) → is_space c ≡ false → trim_left (cons_trimmed c s) ≡ cons_trimmed c s
unfolding trim_left cons_trimmed
trim_left-cons_trimmed c [] h = rw h (rw h refl)
trim_left-cons_trimmed c (d ∷ s) h = rw h refl

trim_left-trim_right : (s : Text) → trim_left (trim_right (trim_left s)) ≡ trim_right (trim_left s)
unfolding trim_left trim_right
trim_left-trim_right [] = refl
trim_left-trim_right (c ∷ s) = elim (Bool-cases (is_space c)) [
  | inl e ↦ rw e (trim_left-trim_right s)
  | inr e ↦ rw e (trim_left-cons_trimmed c (trim_right s) e)
]

-- What is trimmed has no white space at either end.
pub IsTrimmed-trim_space : (s : Text) → IsTrimmed (trim_space s)
unfolding trim_space
IsTrimmed-trim_space s = record {
  starts = trim_left-trim_right s;
  ends = trim_right_idem (trim_left s);
}

-- strings.CutPrefix: the rest of the text behind a prefix.
unfoldable pub cut_prefix : Text → Text → Option Text
cut_prefix s [] = some s
cut_prefix [] (d ∷ p) = none
cut_prefix (c ∷ s) (d ∷ p) = if c == d then cut_prefix s p else none

-- strings.Contains
unfoldable pub contains : Text → Text → Bool
unfolding cut_prefix
contains [] p = is_empty p
contains (c ∷ s) p = elim (cut_prefix (c ∷ s) p) [ some r ↦ true | none ↦ contains s p ]

pub cut_prefix-append : (p s : Text) → cut_prefix (p ++ s) p ≡ some s
unfolding cut_prefix
cut_prefix-append [] s = refl
cut_prefix-append (c ∷ p) s = ground (arith, cut_prefix-append p s)

pub cut_prefix_sound : (s p r : Text) → cut_prefix s p ≡ some r → s ≡ p ++ r
unfolding cut_prefix
cut_prefix_sound s [] r h = ground arith
cut_prefix_sound [] (d ∷ p) r h = cc
cut_prefix_sound (c ∷ s) (d ∷ p) r h = ground (arith, cut_prefix_sound s p r)

-- The digits of a number in front of a text, with fuel for its digits.
decimal_onto : ℕ → ℕ → Text → Text
decimal_onto zero n rest = rest
decimal_onto (suc f) n rest =
    let more = decimal_onto f (n / 10) ((48 + n % 10) ∷ rest) in
    if ltb n 10 then (48 + n) ∷ rest else more

-- fmt's %d at a natural number; a number has at most as many digits as its successor counts.
unfoldable pub decimal : ℕ → Text
unfolding decimal_onto
decimal n = decimal_onto (suc n) n []
