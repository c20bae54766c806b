-- ===== src/Store/Daily/Resolution.antt =====
-- internal/app/daily_sessions.go over internal/store/sqlite: the session of a day is created once.
use claw.Prelude.{
  ◌≡◌, refl, ◌∙◌, inl, inr, true, none, some, [], ◌∷◌, ◌++◌, first, Option-cases, arith,
}
use claw.Prelude.Text.{Text, codes, text_eq_refl}
use claw.Errors.{Error, wrap, message, Result, ok, err, Action}
use claw.Types.{Time, DailySession}
use claw.Daily.{resolve_active_daily_session, create_first, first_session, key_of, or_create}
use claw.Store.{Tables, Store, quiet, driver, query, exec, clock, transaction}
use claw.Store.Daily.{
  is_active_on, get_active_daily_session, get_latest_daily_session_before, conflicts,
  insert_session, activated, create_daily_session, session_store, latest_before, insert_unless,
}
use claw.Store.Daily.Index.{first-append_none}
use claw.Store.Daily.Sessions.{active_on}

abbrev new_session : Text → Tables → DailySession
new_session local_date t =
    first_session session_store local_date (key_of session_store (latest_before local_date t))

-- The session that the first message of a day creates.
abbrev pub created_session : Text → Tables → Time → DailySession
created_session local_date t now = activated now (new_session local_date t)

abbrev pub with_session : DailySession → Tables → Tables
with_session session t = record t { daily_sessions = t.daily_sessions ++ session ∷ [] }

-- What resolving the session of a day does while the driver goes through.
pub data Resolved (local_date : Text) (t : Tables) (now : Time)
    : Result DailySession × Store → Type 0 where
  found :
      (active : DailySession)
      → active_on local_date t ≡ some active
      → Resolved local_date t now (ok active, quiet t now)
  created :
      active_on local_date t ≡ none
      → active_on local_date (with_session (created_session local_date t now) t)
        ≡ some (created_session local_date t now)
      → Resolved local_date t now (
        ok (created_session local_date t now),
        quiet (with_session (created_session local_date t now) t) now,
      )
  refused :
      (e : Error) (row : DailySession)
      → active_on local_date t ≡ none
      → first (conflicts (created_session local_date t now)) t.daily_sessions ≡ some row
      → Resolved local_date t now (err e, quiet t now)

abbrev resolve : Text → Action Store DailySession
resolve = resolve_active_daily_session session_store

create-free :
    (session : DailySession) (t : Tables) (now : Time)
    → active_on session.local_date t ≡ none
    → first (conflicts (activated now session)) t.daily_sessions ≡ none
    → create_daily_session session (quiet t now)
      ≡ (ok (activated now session), quiet (with_session (activated now session) t) now)
unfolding create_daily_session get_active_daily_session query driver clock transaction
    insert_session exec active_on
create-free session t now h free = rw (h, insert_unless) (rw (free, insert_session) refl)

create-taken :
    (session row : DailySession) (t : Tables) (now : Time)
    → active_on session.local_date t ≡ none
    → first (conflicts (activated now session)) t.daily_sessions ≡ some row
    → create_daily_session session (quiet t now) ≡ (
      err (
          wrap
            (codes "insert daily session")
            (message (codes "UNIQUE constraint failed: daily_sessions"))),
      quiet t now,
    )
unfolding create_daily_session get_active_daily_session query driver clock transaction
    insert_session exec active_on
create-taken session row t now h taken = rw (h, insert_unless) (rw (taken, insert_session) refl)

active_on-with_session :
    (session : DailySession) (t : Tables)
    → session.is_active ≡ true
    → active_on session.local_date t ≡ none
    → active_on session.local_date (with_session session t) ≡ some session
unfolding active_on
active_on-with_session session t a h =
    first-append_none (is_active_on session.local_date) t.daily_sessions session h
    ∙ rw (a, text_eq_refl session.local_date) refl

created_one :
    (local_date : Text) (t : Tables) (now : Time)
    → active_on local_date t ≡ none
    → Resolved local_date t now (create_first session_store local_date (quiet t now))
unfolding create_first get_latest_daily_session_before query driver
created_one local_date t now h =
    elim (Option-cases (first (conflicts (created_session local_date t now)) t.daily_sessions)) [
      | inl free ↦
          rw (create-free (new_session local_date t) t now h free)
            (created h (active_on-with_session (created_session local_date t now) t refl h))
      | inr (row, taken) ↦
          rw (create-taken (new_session local_date t) row t now h taken) (refused _ row h taken)
    ]

resolve-found :
    (local_date : Text) (t : Tables) (now : Time) (active : DailySession)
    → active_on local_date t ≡ some active
    → resolve local_date (quiet t now) ≡ (ok active, quiet t now)
unfolding resolve_active_daily_session get_active_daily_session query driver active_on
resolve-found local_date t now active h = rw (h, or_create) refl

-- While the driver goes through, resolving the session of a day gives the active session of the day
-- and changes nothing, or the day has none: then the first generation, whose predecessor is the latest
-- active session of the days before, is created and is the active session of the day, unless a row of
-- the table stands in its way, and then nothing changes.
pub resolve_active_daily_session_lem :
    (local_date : Text) (t : Tables) (now : Time)
    → Resolved local_date t now (resolve local_date (quiet t now))
unfolding resolve_active_daily_session get_active_daily_session query driver active_on
resolve_active_daily_session_lem local_date t now = elim (Option-cases (active_on local_date t)) [
  | inl h ↦ rw (h, or_create) (created_one local_date t now h)
  | inr (active, h) ↦ rw (h, or_create) (found active h)
]

again :
    (local_date : Text) (t : Tables) (now : Time) (r : Result DailySession × Store)
    (session : DailySession)
    → Resolved local_date t now r
    → r.0 ≡ ok session
    → resolve local_date r.1 ≡ (ok session, r.1)
again local_date t now _ session (found active h) e =
    resolve-found local_date t now session (ground (arith, h, e))
again local_date t now _ session (created h now_active) e =
    resolve-found local_date (with_session (created_session local_date t now) t) now session
      (now_active ∙ ground (arith, e))
again local_date t now _ session (refused x row h taken) e = absurd (ground arith)

-- While the driver goes through, all messages of a day get one session: once resolving has given a
-- session, resolving again gives it again and changes nothing.
pub resolve_active_daily_session-again :
    (local_date : Text) (t : Tables) (now : Time) (session : DailySession)
    → (resolve local_date (quiet t now)).0 ≡ ok session
    → resolve local_date (resolve local_date (quiet t now)).1
      ≡ (ok session, (resolve local_date (quiet t now)).1)
resolve_active_daily_session-again local_date t now session e =
    again local_date t now (resolve local_date (quiet t now)) session
      (resolve_active_daily_session_lem local_date t now) e
