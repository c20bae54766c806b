-- ===== src/Clear/Tests.antt =====
-- Runs of the clear command, on the tables of the store's tests.
use claw.Prelude.{ℕ, ◌≡◌, refl, false, none, some, [], ◌∷◌}
use claw.Prelude.Text.{Text, codes}
use claw.Errors.{ok}
use claw.Types.{Time, journal}
use claw.TaskBranch.Tests.{ascii}
use claw.Queue.{QueueCoordinator, new_queue_coordinator, admit, QueuedWork, assign}
use claw.Daily.{resolve_active_daily_session, activation_clear}
use claw.Store.{Store, quiet}
use claw.Store.Tests.{tables, session}
use claw.Store.Daily.{session_store, next_session}
use claw.Services.{sqlite_store}
use claw.Message.Replies.{build_execution_key}
use claw.Clear.{clear, busy_response, cleared_response}
use claw.Clear.Outcomes.{Cleared, clear-Cleared}

abbrev date : Time → Text
date t = codes "2026-04-05"

abbrev idle : QueueCoordinator ℕ
idle = new_queue_coordinator

abbrev busy : QueueCoordinator ℕ
busy =
    (admit (build_execution_key journal session.logical_thread_key)
      (record { run = 1; on_drop = none }) idle).1

refuses_busy :
    (clear (sqlite_store ascii) (codes "claw") busy date 3 (quiet tables 7)).0
    ≡ ok (busy_response (codes "claw"))
unfolding clear resolve_active_daily_session claw.Store.Daily.get_active_daily_session
    claw.Store.driver claw.Store.query claw.Prelude.first claw.Prelude.Text.text_eq codes
    claw.Queue.snapshot admit new_queue_coordinator assign build_execution_key
refuses_busy = refl

starts_fresh :
    (clear (sqlite_store ascii) (codes "claw") idle date 3 (quiet tables 7)).0
    ≡ ok (cleared_response (next_session 7 (date 3) activation_clear session))
unfolding clear claw.Daily.resolve_active_daily_session claw.Store.Daily.get_active_daily_session
    claw.Store.Daily.rotate_daily_session claw.Store.driver claw.Store.query claw.Store.clock
    claw.Store.exec claw.Store.transaction claw.Store.Daily.insert_session
    claw.Store.Daily.deactivate claw.Prelude.first claw.Prelude.Text.text_eq claw.Prelude.Text.codes
    claw.Queue.snapshot claw.Queue.new_queue_coordinator claw.Queue.assign
    claw.Daily.build_daily_logical_key claw.Prelude.Text.trim_space claw.Prelude.Text.decimal
starts_fresh = refl

clear-Cleared_example :
    Cleared ascii
      (codes "claw")
      date
      idle
      (date 3)
      7
      (resolve_active_daily_session session_store (date 3) (quiet tables 7))
      (clear (sqlite_store ascii) (codes "claw") idle date 3 (quiet tables 7))
unfolding claw.Prelude.first
clear-Cleared_example = clear-Cleared ascii (codes "claw") date idle 3 tables 7 ((λ h. refl), tt)
