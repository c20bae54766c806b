-- ===== src/Store/Daily/Index.antt =====
-- The unique index of the active sessions, and what the statements do to the active rows.
use claw.Prelude.{
  ℕ, ◌≡◌, refl, Bool, true, false, none, some, List, [], ◌∷◌, ◌++◌, arith, if◌then◌else◌, first,
}
use claw.Prelude.Text.{Text, text_eq, text_eq_iff, text_eq_refl}
use claw.Types.{Time, DailySession}
use claw.Store.Daily.{is_active_on, deactivate}

-- The unique index: no day has two active rows.
abbrev pub IsSingle : List DailySession → Type 0
IsSingle [] = Unit
IsSingle (row ∷ rows) =
    (row.is_active ≡ true → first (is_active_on row.local_date) rows ≡ none) × IsSingle rows

pub first-append_none :
    {A : Type 0} (p : A → Bool) (xs : List A) (x : A)
    → first p xs ≡ none
    → first p (xs ++ x ∷ []) ≡ (if p x then some x else none)
unfolding first
first-append_none p [] x h = refl
first-append_none p (y ∷ ys) x h = ground (arith, first-append_none p ys x)

pub first-append_other :
    {A : Type 0} (p : A → Bool) (xs : List A) (x : A)
    → p x ≡ false
    → first p (xs ++ x ∷ []) ≡ first p xs
unfolding first
first-append_other p [] x h = rw h
first-append_other p (y ∷ ys) x h = ground (arith, first-append_other p ys x h)

-- Deactivating a row of one day leaves the other days alone.
pub first-deactivate_other :
    (now : Time) (day local_date : Text) (generation : ℕ) (rows : List DailySession)
    → text_eq local_date day ≡ false
    → first (is_active_on day) (deactivate now local_date generation rows)
      ≡ first (is_active_on day) rows
unfolding first deactivate
first-deactivate_other now day local_date generation [] h = refl
first-deactivate_other now day local_date generation (row ∷ rows) h = ground (
  arith,
  text_eq_iff local_date day,
  text_eq_iff row.local_date local_date,
  text_eq_iff row.local_date day,
  first-deactivate_other now day local_date generation rows h,
)

pub first-deactivate-none :
    (now : Time) (day local_date : Text) (generation : ℕ) (rows : List DailySession)
    → first (is_active_on day) rows ≡ none
    → first (is_active_on day) (deactivate now local_date generation rows) ≡ none
unfolding first deactivate
first-deactivate-none now day local_date generation [] h = refl
first-deactivate-none now day local_date generation (row ∷ rows) h =
    ground (arith, first-deactivate-none now day local_date generation rows)

-- Deactivating the active row of a day leaves the day with none.
pub first-deactivate_active :
    (now : Time) (active : DailySession) (day : Text) (rows : List DailySession)
    → IsSingle rows
    → first (is_active_on day) rows ≡ some active
    → first (is_active_on day) (deactivate now active.local_date active.generation rows) ≡ none
unfolding first deactivate
first-deactivate_active now active day [] single h = cc
first-deactivate_active now active day (row ∷ rows) (alone, single) h = ground (
  arith,
  alone,
  text_eq_iff row.local_date day,
  text_eq_refl row.local_date,
  first-deactivate-none now day active.local_date active.generation rows,
  first-deactivate_active now active day rows single,
)

pub deactivate-IsSingle :
    (now : Time) (local_date : Text) (generation : ℕ) (rows : List DailySession)
    → IsSingle rows
    → IsSingle (deactivate now local_date generation rows)
unfolding deactivate
deactivate-IsSingle now local_date generation [] single = tt
deactivate-IsSingle now local_date generation (row ∷ rows) (alone, single) = (
  λ a. ground (arith, alone, first-deactivate-none now row.local_date local_date generation rows),
  deactivate-IsSingle now local_date generation rows single,
)

pub append-IsSingle :
    (session : DailySession) (rows : List DailySession)
    → IsSingle rows
    → first (is_active_on session.local_date) rows ≡ none
    → IsSingle (rows ++ session ∷ [])
unfolding first
append-IsSingle session [] single h = (λ a. refl, tt)
append-IsSingle session (row ∷ rows) (alone, single) h = (
  λ a. ground (
    arith,
    alone,
    text_eq_iff row.local_date session.local_date,
    text_eq_iff session.local_date row.local_date,
    first-append_none (is_active_on row.local_date) rows session,
  ),
  append-IsSingle session rows single (ground arith),
)
