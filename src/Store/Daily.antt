-- ===== src/Store/Daily.antt =====
-- internal/store/sqlite/daily_sessions.go: the table of daily sessions.
pub mod Index
pub mod Sessions
pub mod Resolution
use claw.Prelude.{
  ℕ, ◌+◌, ◌≡◌, Bool, true, false, not, ◌&&◌, ◌||◌, Option, none, some, List, [], ◌∷◌, ◌++◌, map,
  ◌==◌, ltb, if◌then◌else◌, first, select,
}
use claw.Prelude.Text.{Text, codes, text_eq}
use claw.Errors.{
  Error, sentinel, message, no_rows, Result, ok, err, Action, ◌>>=◌, ◌>>◌, or_wrap, continue_with,
  succeed, fail,
}
use claw.Types.{Time, is_zero, DailySession}
use claw.Store.{Tables, Store, driver, query, exec, clock, transaction}
use claw.Store.Stamp.{text_lt}
use claw.Store.Tasks.{order_by}
use claw.Daily.{build_daily_logical_key, SessionStore}

-- WHERE local_date = ? AND is_active = 1
abbrev pub is_active_on : Text → DailySession → Bool
is_active_on local_date row = text_eq row.local_date local_date && row.is_active

unfoldable pub get_active_daily_session : Text → Action Store (Option DailySession)
get_active_daily_session local_date = do
  or_wrap (codes "scan daily session") driver
  query (λ t. first (is_active_on local_date) t.daily_sessions)

-- ORDER BY local_date DESC, generation DESC
abbrev later : DailySession → DailySession → Bool
later a b =
    text_lt b.local_date a.local_date
    || (text_eq a.local_date b.local_date && ltb b.generation a.generation)

unfoldable pub latest_before : Text → Tables → Option DailySession
latest_before local_date t =
    first (λ row. true)
      (order_by later
        (select (λ row. text_lt row.local_date local_date && row.is_active) t.daily_sessions))

unfoldable pub get_latest_daily_session_before : Text → Action Store (Option DailySession)
unfolding latest_before
get_latest_daily_session_before local_date = do
  or_wrap (codes "scan daily session") driver
  query (latest_before local_date)

-- The primary key, the unique logical key, and the unique index on active rows.
abbrev conflicts : DailySession → DailySession → Bool
conflicts session row =
    (text_eq row.local_date session.local_date && row.generation == session.generation)
    || text_eq row.logical_thread_key session.logical_thread_key
    || (text_eq row.local_date session.local_date && (row.is_active && session.is_active))

unfoldable pub insert_session : DailySession → Action Store (Unit {0})
insert_session session s = elim (first (conflicts session) s.tables.daily_sessions) [
  | some row ↦ fail (message (codes "UNIQUE constraint failed: daily_sessions")) s
  | none ↦ exec (λ t. record t { daily_sessions = t.daily_sessions ++ session ∷ [] }) s
]

-- The times of a new row, which is active.
abbrev pub activated : Time → DailySession → DailySession
activated now session = record session {
  is_active = true;
  created_at = if is_zero session.created_at then now else session.created_at;
  updated_at =
      if is_zero session.updated_at
      then (if is_zero session.created_at then now else session.created_at)
      else session.updated_at;
}

abbrev insert_unless : DailySession → Option DailySession → Action Store DailySession
insert_unless session (some active) = succeed active
insert_unless session none = do
  or_wrap (codes "insert daily session") (driver >> insert_session session)
  or_wrap (codes "commit create daily session transaction") driver
  succeed session

unfoldable pub create_daily_session : DailySession → Action Store DailySession
unfolding transaction
create_daily_session session = do
  now ← clock
  or_wrap (codes "begin create daily session transaction") driver
  transaction (do
    active ←
        or_wrap (codes "load active journal session in transaction")
          (get_active_daily_session session.local_date)
    insert_unless (activated now session) active)

-- UPDATE daily_sessions SET is_active = 0
unfoldable pub deactivate : Time → Text → ℕ → List DailySession → List DailySession
deactivate now local_date generation = map (λ row.
    if text_eq row.local_date local_date && row.generation == generation
    then record row { is_active = false; updated_at = now }
    else row)

abbrev pub next_session : Time → Text → Text → DailySession → DailySession
next_session now local_date reason active = record {
  local_date = local_date;
  generation = active.generation + 1;
  logical_thread_key = build_daily_logical_key local_date (active.generation + 1);
  previous_logical_thread_key = active.logical_thread_key;
  activation_reason = reason;
  is_active = true;
  created_at = now;
  updated_at = now;
}

abbrev rotate_from : Time → Text → Text → Option DailySession → Action Store DailySession
rotate_from now local_date reason none = fail (sentinel no_rows)
rotate_from now local_date reason (some active) = do
  let next = next_session now local_date reason active
  or_wrap (codes "deactivate current daily session") driver
  exec (λ t. record t {
    daily_sessions = deactivate now active.local_date active.generation t.daily_sessions;
  })
  or_wrap (codes "insert rotated daily session") (driver >> insert_session next)
  or_wrap (codes "commit rotate journal session transaction") driver
  succeed next

unfoldable pub rotate_daily_session : Text → Text → Action Store DailySession
unfolding transaction
rotate_daily_session local_date reason = do
  now ← clock
  or_wrap (codes "begin rotate journal session transaction") driver
  transaction (do
    active ←
        or_wrap (codes "load active journal session in transaction")
          (get_active_daily_session local_date)
    rotate_from now local_date reason active)

abbrev pub session_store : SessionStore Store
session_store = record {
  get_active_daily_session = get_active_daily_session;
  get_latest_daily_session_before = get_latest_daily_session_before;
  create_daily_session = create_daily_session;
}
