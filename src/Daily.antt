-- ===== src/Daily.antt =====
-- internal/app/daily_sessions.go: the sessions of a day in journal mode.
use claw.Prelude.{ℕ, true, Option, none, some, [], ◌∷◌, ◌++◌}
use claw.Prelude.Text.{Text, codes, decimal, trim_space}
use claw.Errors.{Action, ◌>>=◌, or_wrap, succeed}
use claw.Types.{DailySession}

unfoldable pub activation_automatic : Text
activation_automatic = codes "automatic"

unfoldable pub activation_clear : Text
activation_clear = codes "clear"

unfoldable pub build_daily_logical_key : Text → ℕ → Text
build_daily_logical_key local_date generation = trim_space local_date ++ (b'#' ∷ decimal generation)

-- What `ResolveActiveDailySession` calls of the store.
pub record SessionStore (W : Type 0) : Type 0 where
  pub get_active_daily_session : Text → Action W (Option DailySession)
  pub get_latest_daily_session_before : Text → Action W (Option DailySession)
  pub create_daily_session : DailySession → Action W DailySession

module _ {W : Type 0} (store : SessionStore W) where
  abbrev pub key_of : Option DailySession → Text
  key_of none = []
  key_of (some previous) = previous.logical_thread_key

  -- The session of the first generation of a day.
  abbrev pub first_session : Text → Text → DailySession
  first_session local_date previous_key = record {
    local_date = local_date;
    generation = 1;
    logical_thread_key = build_daily_logical_key local_date 1;
    previous_logical_thread_key = previous_key;
    activation_reason = activation_automatic;
    is_active = true;
    created_at = 0;
    updated_at = 0;
  }

  unfoldable pub create_first : Text → Action W DailySession
  create_first local_date = do
    previous ←
        or_wrap (codes "load previous daily session")
          (store.get_latest_daily_session_before local_date)
    or_wrap (codes "create daily session")
        (store.create_daily_session (first_session local_date (key_of previous)))

  abbrev pub or_create : Text → Option DailySession → Action W DailySession
  or_create local_date (some active) = succeed active
  or_create local_date none = create_first local_date

  unfoldable pub resolve_active_daily_session : Text → Action W DailySession
  unfolding create_first
  resolve_active_daily_session local_date = do
    active ←
        or_wrap (codes "load active journal session") (store.get_active_daily_session local_date)
    or_create local_date active
