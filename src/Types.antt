-- ===== src/Types.antt =====
-- internal/app/types.go: the records that the components exchange.
-- A `time.Time` is its distance from the zero time in nanoseconds, so that `IsZero` is a test for 0;
-- a pointer to a time is an option. Cleanups and sinks are numbers that stand for the closures.
use claw.Prelude.{ℕ, Bool, true, false, Option, List, ◌==◌}
use claw.Prelude.Text.{Text, codes}

abbrev pub Time : Type 0
Time = ℕ

abbrev pub is_zero : Time → Bool
is_zero t = t == 0

-- config.Mode; `ModeJournal` and `ModeThread` are the supported ones.
pub data Mode : Type 0 where
  journal thread : Mode

pub record MessageRequest : Type 0 where
  pub user_id : Text
  pub channel_id : Text
  pub message_id : Text
  pub content : Text
  pub task_override_name : Text
  pub image_paths : List Text
  pub cleanup : Option ℕ
  pub progress_sink : Option ℕ
  pub mentioned : Bool
  pub received_at : Time

pub record MessageResponse : Type 0 where
  pub text : Text
  pub reply_to_id : Text
  pub ephemeral : Bool
  pub ignore : Bool
  pub deferred : Bool

pub record ThreadBinding : Type 0 where
  pub mode : Mode
  pub logical_thread_key : Text
  pub codex_thread_id : Text
  pub task_id : Text
  pub created_at : Time
  pub updated_at : Time

pub record DailySession : Type 0 where
  pub local_date : Text
  pub generation : ℕ
  pub logical_thread_key : Text
  pub previous_logical_thread_key : Text
  pub activation_reason : Text
  pub is_active : Bool
  pub created_at : Time
  pub updated_at : Time

-- `unset` is the empty string; `opened` is `TaskStatusOpen`.
pub data TaskStatus : Type 0 where
  unset opened closed : TaskStatus

pub data TaskWorktreeStatus : Type 0 where
  unset pending ready failed pruned : TaskWorktreeStatus

pub record Task : Type 0 where
  pub task_id : Text
  pub discord_user_id : Text
  pub task_name : Text
  pub status : TaskStatus
  pub branch_name : Text
  pub base_ref : Text
  pub worktree_path : Text
  pub worktree_status : TaskWorktreeStatus
  pub created_at : Time
  pub updated_at : Time
  pub closed_at : Option Time
  pub worktree_created_at : Option Time
  pub worktree_pruned_at : Option Time
  pub last_used_at : Option Time

pub record ActiveTask : Type 0 where
  pub discord_user_id : Text
  pub task_id : Text
  pub updated_at : Time

pub record TokenUsage : Type 0 where
  pub input_tokens : ℕ
  pub cached_input_tokens : ℕ
  pub output_tokens : ℕ

pub record RunTurnResult : Type 0 where
  pub thread_id : Text
  pub response_text : Text
  pub usage : Option TokenUsage

pub record CodexTurnInput : Type 0 where
  pub prompt : Text
  pub image_paths : List Text
  pub working_directory : Text
  pub progress_sink : Option ℕ

-- string(mode)
abbrev pub mode_text : Mode → Text
mode_text journal = codes "journal"
mode_text thread = codes "thread"

abbrev pub mode_eq : Mode → Mode → Bool
mode_eq journal journal = true
mode_eq thread thread = true
mode_eq _ _ = false

abbrev pub is_open : TaskStatus → Bool
is_open opened = true
is_open _ = false

abbrev pub is_closed : TaskStatus → Bool
is_closed closed = true
is_closed _ = false

abbrev pub is_ready : TaskWorktreeStatus → Bool
is_ready ready = true
is_ready _ = false
