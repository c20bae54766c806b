-- ===== src/Store/Tests.antt =====
-- The store with a few rows.
use mathlib.Core.List.{Perm}
use claw.Prelude.{◌≡◌, refl, true, none, some, List, [], ◌∷◌, arith, select, first}
use claw.Prelude.Text.{Text, codes, text_eq}
use claw.Errors.{sentinel, ok, deadline_exceeded}
use claw.Types.{Time, journal, ThreadBinding, DailySession, Task, opened, unset}
use claw.Store.{Tables, Store, quiet, FailsUnchanged}
use claw.Store.Stamp.{second}
use claw.Store.Tasks.{list_open_tasks, close_task}
use claw.Store.Tasks.Order.{
  list_open_tasks_lem, list_open_tasks-misordered, is_open_of, IsOrdered, older,
}
use claw.Store.Tasks.Closing.{close_task_lem, ClosedOrUnchanged}
use claw.Store.Daily.{session_store, deactivate, next_session, rotate_daily_session}
use claw.Daily.{resolve_active_daily_session}
use claw.Store.Daily.Resolution.{
  Resolved, resolve_active_daily_session_lem, resolve_active_daily_session-again,
}
use claw.Store.Daily.Sessions.{RotatedOrUnchanged, rotate_daily_session_lem}

abbrev user : Text
user = codes "u"

abbrev pub task_id : Text
task_id = codes "t"

abbrev pub task_at : Text → Time → Task
task_at id created = record {
  task_id = id;
  discord_user_id = user;
  task_name = codes "fix";
  status = opened;
  branch_name = [];
  base_ref = [];
  worktree_path = [];
  worktree_status = unset;
  created_at = created;
  updated_at = created;
  closed_at = none;
  worktree_created_at = none;
  worktree_pruned_at = none;
  last_used_at = none;
}

abbrev pub session : DailySession
session = record {
  local_date = codes "2026-04-05";
  generation = 1;
  logical_thread_key = codes "2026-04-05#1";
  previous_logical_thread_key = [];
  activation_reason = codes "automatic";
  is_active = true;
  created_at = 5;
  updated_at = 5;
}

abbrev pub binding : ThreadBinding
binding = record {
  mode = journal;
  logical_thread_key = codes "2026-04-05#1";
  codex_thread_id = codes "thread-1";
  task_id = [];
  created_at = 0;
  updated_at = 0;
}

-- A task created on a whole second, and one created half a second later.
abbrev pub tables : Tables
tables = record {
  thread_bindings = binding ∷ [];
  tasks = task_at task_id second ∷ task_at (codes "late") 1500000000 ∷ [];
  active_tasks = record { discord_user_id = user; task_id = task_id; updated_at = 3 } ∷ [];
  daily_sessions = session ∷ [];
  scheduled_tasks = [];
  scheduled_task_runs = [];
  scheduled_task_deliveries = [];
}

abbrev pub store : Store
store = quiet tables 7

-- The driver refuses the first call.
abbrev refusing : Store
refusing = record store { answers = some (sentinel deadline_exceeded) ∷ [] }

list_open_tasks_lem_example :
    (rows : List Task) × ((list_open_tasks user store).0 ≡ ok rows)
    × Perm rows (select (is_open_of user) tables.tasks)
    × IsOrdered older rows
list_open_tasks_lem_example = list_open_tasks_lem user tables 7

list_open_tasks-misordered_example :
    (list_open_tasks user store).0
    ≡ ok (task_at (codes "late") 1500000000 ∷ task_at task_id second ∷ [])
unfolding text_eq codes
list_open_tasks-misordered_example =
    list_open_tasks-misordered user (task_at task_id second) (task_at (codes "late") 1500000000)
      tables 7 refl refl refl refl (omega arith) refl

close_task_lem_example : ClosedOrUnchanged user task_id store (close_task user task_id store)
unfolding first
close_task_lem_example = close_task_lem user task_id store (refl, tt)

rotate_daily_session_lem_example :
    RotatedOrUnchanged
      (codes "2026-04-05")
      (codes "clear")
      store
      (rotate_daily_session (codes "2026-04-05") (codes "clear") store)
unfolding first
rotate_daily_session_lem_example =
    rotate_daily_session_lem (codes "2026-04-05") (codes "clear") store ((λ h. refl), tt)

resolve_active_daily_session_lem_example :
    Resolved
      (codes "2026-04-06")
      tables
      7
      (resolve_active_daily_session session_store (codes "2026-04-06") (quiet tables 7))
resolve_active_daily_session_lem_example =
    resolve_active_daily_session_lem (codes "2026-04-06") tables 7

resolve_active_daily_session-again_example :
    resolve_active_daily_session session_store
      (codes "2026-04-05")
      (resolve_active_daily_session session_store (codes "2026-04-05") (quiet tables 7)).1
    ≡ (
      ok session,
      (resolve_active_daily_session session_store (codes "2026-04-05") (quiet tables 7)).1,
    )
unfolding resolve_active_daily_session claw.Store.Daily.get_active_daily_session claw.Store.driver
    claw.Store.query first text_eq codes
resolve_active_daily_session-again_example =
    resolve_active_daily_session-again (codes "2026-04-05") tables 7 session refl
