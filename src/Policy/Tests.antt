-- ===== src/Policy/Tests.antt =====
-- Messages and their keys, over a store with a few tasks.
use claw.Prelude.{◌≡◌, ◌≢◌, true, none, [], ◌↔◌, arith}
use claw.Prelude.Text.{codes}
use claw.Errors.{ok}
use claw.Types.{thread, MessageRequest}
use claw.TaskBranch.Tests.{ascii}
use claw.Store.{quiet}
use claw.Store.Tests.{tables}
use claw.Services.{sqlite_store}
use claw.Policy.{build_task_key, resolve_message_key}
use claw.Policy.Keys.{task_id_from_logical_key, task_id_from_logical_key_iff}
use claw.Policy.Overrides.{Resolves, resolve_message_key-Resolves}

abbrev request : MessageRequest
request = record {
  user_id = codes "u";
  channel_id = codes "c";
  message_id = codes "m";
  content = codes "go";
  task_override_name = codes "missing";
  image_paths = [];
  cleanup = none;
  progress_sink = none;
  mentioned = true;
  received_at = 3;
}

task_id_from_logical_key_iff_example :
    (task_id_from_logical_key (codes "u") (codes "u:t") ≡ ok (codes "t"))
    ↔ ((codes "u" ≢ []) × (codes "t" ≢ []) × (codes "u:t" ≡ build_task_key (codes "u") (codes "t")))
task_id_from_logical_key_iff_example =
    task_id_from_logical_key_iff (codes "u") (codes "t") (codes "u:t")

resolve_message_key-Resolves_example :
    Resolves
      (codes "u")
      (codes "missing")
      tables
      (resolve_message_key
        (sqlite_store ascii)
        (λ t. codes "2026-04-05")
        thread
        request
        (quiet tables 7)).0
unfolding codes
resolve_message_key-Resolves_example =
    resolve_message_key-Resolves ascii (λ t. codes "2026-04-05") request tables 7
      (λ h. absurd (ground arith))
