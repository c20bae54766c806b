-- ===== src/Policy.antt =====
-- internal/thread/policy.go: the logical key of a message. The date of a time in the configured
-- time zone is a parameter. A mode is one of the two that the configuration lets through, so the error
-- for another mode is not modelled.
pub mod Keys
pub mod Overrides
mod Tests
use claw.Prelude.{
  ◌≡◌, Bool, true, false, Option, none, some, List, [], ◌∷◌, ◌++◌, if◌then◌else◌, select,
}
use claw.Prelude.Text.{Text, is_empty, text_eq}
use claw.Errors.{
  Error, sentinel, noted, no_active_task, task_override_not_found, task_override_closed,
  task_override_ambiguous, Action, ◌>>=◌, continue_with, succeed, fail,
}
use claw.Types.{Time, Mode, journal, thread, MessageRequest, Task, ActiveTask}
use claw.Services.{ThreadStore}

-- BuildTaskKey, and buildTaskLogicalKey of the message service
unfoldable pub build_task_key : Text → Text → Text
build_task_key user_id task_id = user_id ++ (b':' ∷ task_id)

unfoldable pub closed_or_missing : {W : Type 0} → Text → Bool → Action W Text
closed_or_missing name closed = fail (
    if closed
    then noted (sentinel task_override_closed) name
    else noted (sentinel task_override_not_found) name)

module _ {W : Type 0} (store : ThreadStore W) where
  -- The switch on the number of matches.
  pub choose_match : Text → Text → List Task → Action W Text
  choose_match user_id name [] = do
    closed ← store.has_closed_task_with_name user_id name
    closed_or_missing name closed
  choose_match user_id name (task ∷ []) = succeed (build_task_key user_id task.task_id)
  choose_match user_id name (_ ∷ _ ∷ _) = fail (noted (sentinel task_override_ambiguous) name)

  pub resolve_override : Text → Text → Action W Text
  resolve_override user_id name = do
    tasks ← store.list_open_tasks user_id
    choose_match user_id name (select (λ task. text_eq task.task_name name) tasks)

  abbrev active_key : Text → Option ActiveTask → Action W Text
  active_key user_id none = fail (sentinel no_active_task)
  active_key user_id (some active) = succeed (build_task_key user_id active.task_id)

  pub resolve_active : Text → Action W Text
  resolve_active user_id = do active ← store.get_active_task user_id; active_key user_id active

  unfoldable pub resolve_message_key : (Time → Text) → Mode → MessageRequest → Action W Text
  unfolding resolve_override resolve_active choose_match closed_or_missing
  resolve_message_key local_date journal request = succeed (local_date request.received_at)
  resolve_message_key local_date thread request =
      if is_empty request.task_override_name
      then resolve_active request.user_id
      else resolve_override request.user_id request.task_override_name
