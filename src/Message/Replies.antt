-- ===== src/Message/Replies.antt =====
-- internal/app/message_service_impl.go: the texts of the replies.
use claw.Prelude.{ℕ, true, false, [], ◌∷◌, ◌++◌}
use claw.Prelude.Text.{Text, codes, decimal}
use claw.Types.{mode_text, Mode, MessageResponse}
use claw.Commands.{task_list, task_new_placeholder, task_switch_placeholder, task_id_placeholder}

-- A reply to a message.
abbrev pub reply_to : Text → Text → MessageResponse
reply_to message_id text = record {
  text = text;
  reply_to_id = message_id;
  ephemeral = false;
  ignore = false;
  deferred = false;
}

unfoldable pub stop_command_response : Text → MessageResponse
stop_command_response text = record {
  text = text;
  reply_to_id = [];
  ephemeral = true;
  ignore = false;
  deferred = false;
}

unfoldable pub queue_full_message : Text
queue_full_message =
    codes "This conversation already has five queued messages. Please retry in a moment."

unfoldable pub queued_internal_error_message : Text
queued_internal_error_message =
    codes "Something went wrong while handling your queued message. Please retry in a moment."

unfoldable pub stopped_turn_message : Text
stopped_turn_message = codes "Stopped the current Codex run."

unfoldable pub stopped_message : Text → MessageResponse
unfolding stopped_turn_message
stopped_message reply_to_id = reply_to reply_to_id stopped_turn_message

unfoldable pub no_active_task_message : Text → Text
no_active_task_message c =
    codes "No active task is selected. Use "
    ++ (task_new_placeholder c
        ++ (codes ", "
            ++ (task_list c ++ (codes ", or " ++ (task_switch_placeholder c ++ codes " first.")))))

unfoldable pub override_not_found_message : Text → Text → Text
override_not_found_message c name =
    codes "No open task named `"
    ++ (name
        ++ (codes "` was found for this message. Use "
            ++ (task_list c
                ++ (codes " to find an open task or "
                    ++ (task_new_placeholder c ++ codes " to create another one.")))))

unfoldable pub override_closed_message : Text → Text → Text
override_closed_message c name =
    codes "Task `"
    ++ (name
        ++ (codes "` is closed. Use "
            ++ (task_list c
                ++ (codes " to find an open task or "
                    ++ (task_switch_placeholder c
                        ++ codes " to select another active task first.")))))

unfoldable pub override_ambiguous_message : Text → Text → Text
override_ambiguous_message c name =
    codes "Multiple open tasks are named `"
    ++ (name
        ++ (codes "`. Use "
            ++ (task_id_placeholder c (codes "task-switch")
                ++ (codes " to pick the right task first, then resend the message without `task:"
                    ++ (name ++ codes "`.")))))

unfoldable pub queued_acknowledgement_message : ℕ → Text
queued_acknowledgement_message position =
    codes
      "A response is already running for this conversation. Your message has been queued at position "
    ++ (decimal position ++ codes ".")

unfoldable pub queued_acknowledgement_message_for_task : Text → ℕ → Text
queued_acknowledgement_message_for_task name position =
    codes "A response is already running for task `"
    ++ (name
        ++ (codes "`. Your message has been queued at position "
            ++ (decimal position ++ codes ".")))

unfoldable pub task_override_confirmation_text : Text → Text → Text
task_override_confirmation_text name response =
    codes "Task override: `" ++ (name ++ (codes "`" ++ (10 ∷ 10 ∷ response)))

unfoldable pub build_execution_key : Mode → Text → Text
build_execution_key mode key = mode_text mode ++ (b':' ∷ key)
