-- ===== src/Store/Daily/Sessions.antt =====
-- What rotating and creating sessions does to the table.
use claw.Prelude.{
  ◌≡◌, refl, sym, ap, ◌∙◌, ◌⊎◌, inl, inr, false, Option, none, some, List, [], ◌∷◌, ◌++◌, arith,
  first, Option-cases,
}
use claw.Prelude.Text.{Text, text_eq, text_eq_iff, text_eq_refl}
use claw.Errors.{
  Error, sentinel, no_rows, Result, ok, err, Action, ◌>>=◌, ◌>>◌, or_wrap, wrapped, continue_with,
}
use claw.Types.{Time, DailySession}
use claw.Store.{
  Tables, Store, driver, query, exec, clock, transaction, rolled_back, driver_rule, driver_bare,
  quiet,
}
use claw.Store.Daily.Index.{
  IsSingle, first-append_none, first-append_other, first-deactivate_other, first-deactivate_active,
  deactivate-IsSingle, append-IsSingle,
}
use claw.Store.Daily.{
  is_active_on, get_active_daily_session, conflicts, insert_session, deactivate, next_session,
  rotate_from, rotate_daily_session,
}

-- The active session of a day.
unfoldable pub active_on : Text → Tables → Option DailySession
active_on local_date t = first (is_active_on local_date) t.daily_sessions

abbrev appended : DailySession → Tables → Tables
appended session t = record t { daily_sessions = t.daily_sessions ++ session ∷ [] }

abbrev deactivated : Time → DailySession → Tables → Tables
deactivated now active t = record t {
  daily_sessions = deactivate now active.local_date active.generation t.daily_sessions;
}

pub data Rotates (local_date reason : Text) (s : Store) (r : Result DailySession × Store)
    : Type 0 where
  fails : (e : Error) → r.0 ≡ err e → r.1.tables ≡ s.tables → Rotates local_date reason s r
  rotates :
      (active : DailySession)
      → active_on local_date s.tables ≡ some active
      → r.0 ≡ ok (next_session s.now local_date reason active)
      → r.1.tables
        ≡ appended (next_session s.now local_date reason active) (deactivated s.now active s.tables)
      → Rotates local_date reason s r

insert_rule {ℓ} :
    (P : Result (Unit {0}) × Store → Type ℓ) (session : DailySession) (s : Store)
    → ((e : Error) → P (err e, s))
    → P (ok tt, record s { tables = appended session s.tables })
    → P (insert_session session s)
unfolding insert_session exec
insert_rule P session s refused inserted =
    elim (Option-cases (first (conflicts session) s.tables.daily_sessions)) [
      | inl e ↦ rw (e, insert_session) inserted
      | inr (row, e) ↦ rw (e, insert_session) (refused _)
    ]

-- Reading the active session inside a transaction.
active_rule {ℓ} :
    {A : Type ℓ} (P : Result A × Store → Type 0) (local_date t : Text)
    (k : Option DailySession → Action Store A) (s : Store)
    → ((s' : Store)
        → s'.tables ≡ s.tables
        → s'.now ≡ s.now
        → P (k (active_on local_date s'.tables) s'))
    → ((e : Error) (s' : Store) → s'.tables ≡ s.tables → P (err e, s'))
    → P ((or_wrap t (get_active_daily_session local_date) >>= k) s)
unfolding get_active_daily_session query active_on
active_rule P local_date t k s through failed =
    driver_rule (λ r. P (continue_with k (wrapped t r))) _ _ s through
      (λ e s' same. failed _ s' same)

-- The insertion and what follows it.
insert_then :
    {A : Type 0} (P : Result A × Store → Type 0) (t : Text) (session : DailySession)
    (k : Action Store A) (s : Store)
    → ((s' : Store)
        → s'.tables ≡ s.tables
        → P (k (record s' { tables = appended session s'.tables })))
    → ((e : Error) (s' : Store) → s'.tables ≡ s.tables → P (err e, s'))
    → P ((or_wrap t (driver >> insert_session session) >> k) s)
insert_then P t session k s inserted failed =
    driver_bare (λ r. P (continue_with (λ _. k) (wrapped t r))) (insert_session session) s
      (λ s' same clocked.
        insert_rule (λ r. P (continue_with (λ _. k) (wrapped t r))) session s'
          (λ e. failed _ s' same) (inserted s' same))
      (λ e s' same. failed _ s' same)

rotate_from-Rotates :
    (local_date reason : Text) (s s1 : Store) (before : Tables) (a : Option DailySession)
    → before ≡ s.tables
    → s1.tables ≡ before
    → active_on local_date s.tables ≡ a
    → Rotates local_date reason s (rolled_back before (rotate_from s.now local_date reason a s1))
unfolding exec
rotate_from-Rotates local_date reason s s1 before none b t1 e = fails _ refl b
rotate_from-Rotates local_date reason s s1 before (some active) b t1 e =
    driver_rule P _ _ s1
      (λ s2 t2 n2.
        insert_then P _ (next_session s.now local_date reason active) _ _
          (λ s3 t3.
            driver_rule P _ _ _
              (λ s4 t4 n4.
                rotates active e refl
                  (t4 ∙ ap (appended _) (t3 ∙ ap (deactivated s.now active) (t2 ∙ t1 ∙ b))))
              (λ x s' t. fails _ refl b))
          (λ x s' t. fails _ refl b))
      (λ x s' t. fails _ refl b)
  where
    P : Result DailySession × Store → Type 0
    P r = Rotates local_date reason s (rolled_back before r)

rotate_daily_session-Rotates :
    (local_date reason : Text) (s : Store)
    → Rotates local_date reason s (rotate_daily_session local_date reason s)
unfolding rotate_daily_session clock
rotate_daily_session-Rotates local_date reason s =
    driver_rule (Rotates local_date reason s) _ _ s
      (λ s1 t1 n1.
        active_rule (λ r. Rotates local_date reason s (rolled_back s1.tables r)) local_date _ _ s1
          (λ s2 t2 n2.
            rotate_from-Rotates local_date reason s s2 s1.tables _ t1 t2
              (sym (ap (active_on local_date) (t2 ∙ t1))))
          (λ e s' t. fails _ refl t1))
      (λ e s' t. fails _ refl t)

-- An error with the tables as they were; or the day had an active session and its next generation
-- is the day's active session now and the result, with the other days as they were.
abbrev pub RotatedOrUnchanged : Text → Text → Store → Result DailySession × Store → Type 0
RotatedOrUnchanged local_date reason s r =
    ((e : Error) × (r.0 ≡ err e) × (r.1.tables ≡ s.tables))
    ⊎ ((active : DailySession) × (active_on local_date s.tables ≡ some active)
        × (r.0 ≡ ok (next_session s.now local_date reason active))
        × (active_on local_date r.1.tables ≡ some (next_session s.now local_date reason active))
        × ((day : Text)
            → text_eq local_date day ≡ false
            → active_on day r.1.tables ≡ active_on day s.tables)
        × IsSingle r.1.tables.daily_sessions)

active-date :
    (local_date : Text) (rows : List DailySession) (active : DailySession)
    → first (is_active_on local_date) rows ≡ some active
    → active.local_date ≡ local_date
unfolding first
active-date local_date [] active h = cc
active-date local_date (row ∷ rows) active h =
    ground (arith, text_eq_iff row.local_date local_date, active-date local_date rows active)

Rotates-RotatedOrUnchanged :
    (local_date reason : Text) (s : Store) (r : Result DailySession × Store)
    → IsSingle s.tables.daily_sessions
    → Rotates local_date reason s r
    → RotatedOrUnchanged local_date reason s r
unfolding active_on
Rotates-RotatedOrUnchanged local_date reason s r single (fails e h same) = inl (e, h, same)
Rotates-RotatedOrUnchanged local_date reason s r single (rotates active was h now) =
    let rows = s.tables.daily_sessions in
    let next = next_session s.now local_date reason active in
    let gone = first-deactivate_active s.now active local_date rows single was in
    inr (
      active,
      was,
      h,
      rw now (
          rw (first-append_none (is_active_on local_date) _ next gone)
            (rw (text_eq_refl local_date))),
      λ day other. rw now (
          first-append_other (is_active_on day) _ next (rw other)
          ∙ first-deactivate_other s.now day active.local_date active.generation rows
              (rw (active-date local_date rows active was) other)),
      rw now (
          append-IsSingle next _
            (deactivate-IsSingle s.now active.local_date active.generation rows single) gone),
    )

-- Let one session of each day be active at most.
-- Rotating the session of a day either fails and changes no table, or the day had an active
-- session and now the next generation, which names the old one as its predecessor, is the active
-- session and the result; the other days are as they were, and the index stays unique.
pub rotate_daily_session_lem :
    (local_date reason : Text) (s : Store)
    → IsSingle s.tables.daily_sessions
    → RotatedOrUnchanged local_date reason s (rotate_daily_session local_date reason s)
rotate_daily_session_lem local_date reason s single =
    Rotates-RotatedOrUnchanged local_date reason s _ single
      (rotate_daily_session-Rotates local_date reason s)

-- While the driver goes through, rotating the session of a day that has an active session, and no
-- row that takes the next generation or its key, succeeds with the next generation.
pub rotate_daily_session_total :
    (local_date reason : Text) (t : Tables) (now : Time) (active : DailySession)
    → active_on local_date t ≡ some active
    → first
        (conflicts (next_session now local_date reason active))
        (deactivate now active.local_date active.generation t.daily_sessions)
      ≡ none
    → (rotate_daily_session local_date reason (quiet t now)).0
      ≡ ok (next_session now local_date reason active)
unfolding rotate_daily_session clock transaction exec driver get_active_daily_session query
    insert_session active_on
rotate_daily_session_total local_date reason t now active was free =
    rw (was, rotate_from) (rw (free, insert_session))

-- While the driver goes through, rotating the session of a day with no active session fails with the
-- error for no rows.
pub rotate_daily_session_missing :
    (local_date reason : Text) (t : Tables) (now : Time)
    → active_on local_date t ≡ none
    → (rotate_daily_session local_date reason (quiet t now)).0 ≡ err (sentinel no_rows)
unfolding rotate_daily_session clock transaction exec driver get_active_daily_session query
    insert_session active_on
rotate_daily_session_missing local_date reason t now was = rw was
