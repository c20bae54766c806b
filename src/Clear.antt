-- ===== src/Clear.antt =====
-- internal/app/daily_command_service.go: the command that starts a fresh journal conversation.
pub mod Outcomes
mod Tests
use claw.Prelude.{ℕ, Bool, true, false, ◌||◌, [], ◌∷◌, ◌++◌, ltb, if◌then◌else◌}
use claw.Prelude.Text.{Text, codes}
use claw.Errors.{Action, Result, ok, err, ◌>>=◌, or_wrap, continue_with, succeed}
use claw.Types.{Time, journal, MessageResponse, DailySession}
use claw.Queue.{QueueCoordinator, QueueSnapshot, snapshot}
use claw.Daily.{resolve_active_daily_session, activation_clear}
use claw.Services.{ThreadStore}
use claw.Message.Replies.{build_execution_key}

abbrev pub daily_command_response : Text → MessageResponse
daily_command_response text = record {
  text = text;
  reply_to_id = [];
  ephemeral = true;
  ignore = false;
  deferred = false;
}

unfoldable pub busy_response : Text → MessageResponse
busy_response command_name = daily_command_response (
    codes
      "Today's shared journal conversation is still busy. Wait for pending replies to finish, then retry `/"
    ++ (command_name ++ codes " action:clear`."))

unfoldable pub cleared_response : DailySession → MessageResponse
cleared_response next = daily_command_response (
    codes "Started a fresh shared journal conversation for today. The active generation is now `"
    ++ (next.logical_thread_key ++ codes "`."))

-- A turn runs under the key, or messages wait.
abbrev pub is_busy : QueueSnapshot → Bool
is_busy q = q.in_flight || ltb 0 q.queued

module _ {W : Type 0} (store : ThreadStore W) where
  abbrev pub rotated : Text → Action W MessageResponse
  rotated date = do
    next ←
        or_wrap (codes "rotate journal session") (store.rotate_daily_session date activation_clear)
    succeed (cleared_response next)

module _ {W R : Type 0} (store : ThreadStore W) (command_name : Text) (c : QueueCoordinator R) where
  unfoldable pub clear_active : Text → DailySession → Action W MessageResponse
  unfolding busy_response cleared_response
  clear_active date active =
      if is_busy (snapshot (build_execution_key journal active.logical_thread_key) c)
      then succeed (busy_response command_name)
      else rotated store date

  unfoldable pub clear : (Time → Text) → Time → Action W MessageResponse
  unfolding clear_active
  clear local_date received_at = do
    active ←
        or_wrap (codes "resolve active journal session")
          (resolve_active_daily_session store.sessions (local_date received_at))
    clear_active (local_date received_at) active
