-- ===== src/TaskCommands/Create/Routing.antt =====
-- internal/app/task_service.go and internal/thread/policy.go: messages for a task that was created.
use claw.Prelude.{◌≡◌, ◌≢◌, refl, ap, ◌∙◌, none, [], ◌∷◌, arith, first}
use claw.Prelude.Text.{Text, text_eq, trim_space}
use claw.Errors.{Result, ok}
use claw.Types.{Time, thread, MessageRequest, MessageResponse, Task}
use claw.TaskName.{validate_task_name}
use claw.TaskBranch.{Unicode}
use claw.Store.{Tables, Store, quiet}
use claw.Store.Tasks.{with_defaults}
use claw.Services.{sqlite_store}
use claw.Policy.{build_task_key, resolve_message_key}
use claw.Policy.Overrides.{named, Resolves, resolve_message_key-Resolves}
use claw.TaskCommands.Create.{new_task, create}
use claw.TaskCommands.Create.Naming.{Creates, create-Creates, new_row, with_task_row}

abbrev pub message_for : MessageRequest → Text → Text → MessageRequest
message_for request user_id name = record request { user_id = user_id; task_override_name = name }

unnamed-invalid : {name : Text} → name ≡ [] → validate_task_name name ≢ none
unfolding validate_task_name trim_space
unnamed-invalid e valid = absurd (ground (arith, e, valid))

Resolves-only :
    (user_id name : Text) (row : Task) (t : Tables) (r : Result Text)
    → named user_id name t ≡ row ∷ []
    → Resolves user_id name t r
    → r ≡ ok (build_task_key user_id row.task_id)
Resolves-only user_id name row t r only (Resolves.unique task e is) =
    is ∙ ap (λ x. ok (build_task_key user_id x)) (ground (arith, only, e))
Resolves-only user_id name row t r only (Resolves.closed x e _ _ _) =
    absurd (ground (arith, only, e))
Resolves-only user_id name row t r only (Resolves.missing e _ _) = absurd (ground (arith, only, e))
Resolves-only user_id name row t r only (Resolves.ambiguous a b rest e _) =
    absurd (ground (arith, only, e))

module _ (u : Unicode) (command_name task_id user_id name : Text) (t : Tables) (now : Time)
    (local_date : Time → Text) (request : MessageRequest) where
  created-resolves :
      (r : Result MessageResponse × Store)
      → Creates u command_name task_id user_id name t now r
      → name ≢ []
      → validate_task_name name ≡ none
      → named user_id name t ≡ []
      → first (λ row. text_eq row.task_id task_id) t.tasks ≡ none
      → (resolve_message_key
          (sqlite_store u)
          local_date
          thread
          (message_for request user_id name)
          r.1).0
        ≡ ok (build_task_key user_id task_id)
  unfolding with_defaults new_task
  created-resolves _ (Creates.unnamed e) n valid free fresh = absurd (n e)
  created-resolves _ (Creates.invalid i) n valid free fresh = absurd (i valid)
  created-resolves _ (Creates.taken row rows e) n valid free fresh =
      absurd (ground (arith, e, free))
  created-resolves _ (Creates.clash row e h) n valid free fresh = absurd (ground (arith, h, fresh))
  created-resolves _ (Creates.made _ _ only _) n valid free fresh =
      Resolves-only user_id name (new_row u now (new_task u task_id user_id name))
        (with_task_row u now (new_task u task_id user_id name) t) _ only
        (resolve_message_key-Resolves u local_date (message_for request user_id name)
          (with_task_row u now (new_task u task_id user_id name) t) now n)
      ∙ refl

-- While the driver goes through, when a task is created under a valid name that no open task of the user
-- has, with an id that is new, a message of the user with that name as its override goes to the task.
pub create-resolves :
    (u : Unicode) (command_name task_id user_id task_name : Text) (t : Tables) (now : Time)
    (local_date : Time → Text) (request : MessageRequest)
    → validate_task_name (trim_space task_name) ≡ none
    → named user_id (trim_space task_name) t ≡ []
    → first (λ row. text_eq row.task_id task_id) t.tasks ≡ none
    → (resolve_message_key
        (sqlite_store u)
        local_date
        thread
        (message_for request user_id (trim_space task_name))
        (create (sqlite_store u) u command_name task_id user_id task_name (quiet t now)).1).0
      ≡ ok (build_task_key user_id task_id)
create-resolves u command_name task_id user_id task_name t now local_date request valid free fresh =
    created-resolves u command_name task_id user_id (trim_space task_name) t now local_date request
      (create (sqlite_store u) u command_name task_id user_id task_name (quiet t now))
      (create-Creates u command_name task_id user_id task_name t now) (λ e. unnamed-invalid e valid)
      valid free fresh
