-- ===== src/Scheduler/Tests.antt =====
-- The scheduler over the SQLite store, with a Codex that answers, and one that fails.
use claw.Prelude.{
  ℕ, ◌+◌, ◌*◌, ◌/◌, ◌≤◌, ◌<◌, ◌≡◌, refl, ◌⊎◌, inl, inr, Bool, true, false, Option, none, some, List,
  [], ◌∷◌, ◌++◌, arith,
}
use claw.Prelude.Text.{Text, codes}
use claw.Errors.{Error, message, ok, succeed}
use claw.Types.{Time, Mode, journal, thread}
use claw.TaskBranch.Tests.{ascii}
use claw.ScheduledTasks.{ScheduledTaskRun, pending}
use claw.Schedule.{parse_scheduled_task_schedule}
use claw.Schedule.Tests.{every_minute, utc, plain_quote, nightly}
use claw.Store.{Tables, Store, empty_tables, quiet}
use claw.Store.Stamp.{second}
use claw.Store.Scheduled.{admitted_form, admit_scheduled_task_run}
use claw.Store.Scheduled.Updates.{scheduled_store}
use claw.Store.Scheduled.Runs.{IsUnique}
use claw.Store.Scheduled.Admission.{LowersErrors, Admitted, admit_scheduled_task_run_lem}
use claw.Store.Scheduled.Deliveries.{Keeps-refl}
use claw.Scheduler.{Dependencies, due_at}
use claw.Scheduler.Execution.{pending_run, execute_run}
use claw.Scheduler.Ticks.{tick_task}
use claw.Scheduler.Due.{Advances, IsLatestDue, NothingDue, due_at_lem}
use claw.Scheduler.Retries.{on_sqlite, last, retry, Attempts-le_two}
use claw.Scheduler.Laws.{IsApart}
use claw.Scheduler.Outcomes.{Ends}
use claw.Scheduler.Causes.{Caused, started_run, started_store}
use claw.Scheduler.Executed.{execute_run-Ends}
use claw.Scheduler.Admissions.{Ticked, tick_task-Ticked}

ascii-LowersErrors : LowersErrors ascii
unfolding codes
ascii-LowersErrors = record { unique = refl; foreign = refl }

every_minute-Advances : Advances every_minute
every_minute-Advances t = inr (omega arith)

-- A minute and a half behind the creation of the task, with the table of tasks filled.
abbrev noon : Time
noon = 690 * second

abbrev tables : Tables
tables = record empty_tables { scheduled_tasks = nightly ∷ [] }

abbrev store : Store
store = quiet tables noon

abbrev clerk : Mode → Option Error → Dependencies Store
clerk mode failure = record {
  mode = mode;
  location = utc;
  workdir = codes "/work";
  default_report_target = [];
  store = scheduled_store ascii;
  run_turn = λ id input s.
      ((record { thread_id = codes "t"; response_text = input.prompt; usage = none }, failure), s);
  send_scheduled_report = λ target text. succeed (codes "m1");
  prepare_temporary_worktree = λ id. succeed (id, 7);
  run_cleanup = λ c. succeed tt;
  now = λ s. (s.now, s);
  new_run_id = λ s. (codes "r2", s);
  new_delivery_id = λ s. (codes "d1", s);
  is_done = λ s. false;
  format_rfc3339 = λ t. codes "time";
  quote = plain_quote;
}

clerk-IsApart : (mode : Mode) (failure : Option Error) → IsApart (clerk mode failure)
clerk-IsApart mode failure = record {
  reads = Keeps-refl;
  names_run = Keeps-refl;
  names_delivery = Keeps-refl;
  runs = λ id input s. Keeps-refl s;
  sends = λ target text s. Keeps-refl s;
  prepares = λ id s. Keeps-refl s;
  cleans = λ c s. Keeps-refl s;
}

-- The task fires every minute: of the two due times the last one is found.
finds : due_at every_minute noon (599 * second) ≡ some (660 * second)
unfolding due_at
finds = refl

due_at_lem_example :
    ((due_at every_minute noon (599 * second) ≡ none) × NothingDue every_minute (599 * second) noon)
    ⊎ ((t : Time) × (due_at every_minute noon (599 * second) ≡ some t)
        × IsLatestDue every_minute (599 * second) noon t)
due_at_lem_example = due_at_lem every_minute every_minute-Advances noon (599 * second)

abbrev first_run : ScheduledTaskRun
first_run = pending_run (codes "r1") (codes "s1") (codes "journal") (660 * second)

admit_scheduled_task_run_lem_example :
    Admitted (admitted_form noon first_run) store (admit_scheduled_task_run ascii first_run store)
    × IsUnique (admit_scheduled_task_run ascii first_run store).1.tables.scheduled_task_runs
admit_scheduled_task_run_lem_example =
    admit_scheduled_task_run_lem ascii ascii-LowersErrors first_run store refl tt

parsed : parse_scheduled_task_schedule plain_quote nightly (some utc) ≡ ok every_minute
unfolding parse_scheduled_task_schedule claw.Prelude.Text.is_empty claw.Prelude.Text.trim_space
    codes
parsed = refl

tick_task-Ticked_example :
    Ticked
      (clerk journal none)
      0
      noon
      nightly
      every_minute
      store
      (tick_task (on_sqlite ascii (clerk journal none)) 0 noon nightly store)
tick_task-Ticked_example =
    tick_task-Ticked ascii (clerk journal none) ascii-LowersErrors (clerk-IsApart journal none) 0
      noon nightly every_minute store parsed every_minute-Advances refl tt

-- The store with the run, and what a failing Codex leaves of it.
abbrev admitted_store : Store
admitted_store = quiet (record tables { scheduled_task_runs = first_run ∷ [] }) noon

abbrev broken : Dependencies Store
broken = clerk thread (some (message (codes "exit status 1")))

execute_run-Ends_example :
    Ends broken first_run (execute_run (on_sqlite ascii broken) nightly first_run admitted_store)
    × Caused ascii broken nightly
        (started_run ascii broken nightly first_run admitted_store)
        (started_store ascii broken nightly first_run admitted_store)
        (execute_run (on_sqlite ascii broken) nightly first_run admitted_store).0.0.status
unfolding claw.Prelude.first claw.Prelude.Text.text_eq codes
execute_run-Ends_example =
    execute_run-Ends ascii broken nightly ascii-LowersErrors
      (clerk-IsApart thread (some (message (codes "exit status 1")))) first_run pending
      admitted_store
      (record {
        through = refl;
        unique = (refl, tt);
        row = first_run;
        found = refl;
        of_task = refl;
        due_then = refl;
        attempted = refl;
        is_in = refl;
      })

abbrev second_run : ScheduledTaskRun
second_run = record (pending_run (codes "r2") (codes "s1") (codes "journal") (660 * second)) {
  attempt = 2;
  created_at = noon;
  updated_at = noon;
}

retries :
    (execute_run (on_sqlite ascii broken) nightly first_run admitted_store).0.1 ≡ some second_run
unfolding execute_run claw.Store.Scheduled.Updates.update_scheduled_task_run claw.Store.clock
    claw.Store.driver claw.Store.query claw.Store.Scheduled.Updates.store_run claw.Prelude.first
    claw.Prelude.Text.text_eq codes claw.Store.exec claw.Scheduler.is_cancellation_error
    admit_scheduled_task_run claw.Store.Scheduled.insert_run
retries = refl

Attempts-le_two_example : 2 ≤ 2
Attempts-le_two_example =
    Attempts-le_two ascii broken nightly first_run 2 (retry admitted_store second_run retries last)
      refl
