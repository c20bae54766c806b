-- ===== src/Lib.antt =====
-- 39claw connects a Discord server to Codex: a message becomes a turn of a Codex thread, and which
-- thread that is depends on a logical key. In journal mode the key is the session of the day, in
-- thread mode it is the user with a task. Turns under one key are to run one at a time: what arrives
-- while one runs is to wait in a bounded queue, and a stop drops the queue and cancels the turn.
--
-- The parts, and the files that model them:
-- * Queue (internal/thread/queue.go): the coordinator of the queues. `admit`, `complete`, `snapshot`
--   and `drop_queued` are the methods; the mutex makes each of them one step. Queue/Refines has the
--   abstract queues, Queue/Protocol the runs of arrivals, completions and stops.
-- * Policy (internal/thread/policy.go): `resolve_message_key`. Policy/Keys has the keys of tasks.
-- * TaskOverride, TaskName, TaskBranch (internal/app/task_override.go, task_name.go,
--   task_branch.go): the parser of `task:<name>` messages, the names and the branches of tasks.
-- * Types, Errors, Commands (internal/app/types.go, errors.go, command_surface.go): what the others
--   share.
-- * Daily (internal/app/daily_sessions.go): the session of the day, over an interface of the store.
-- * Store (internal/store/sqlite/store.go, daily_sessions.go): the tables as lists of rows, and the
--   calls of the store. Store/Bindings, Store/Tasks and Store/Daily have the tables, Store/Stamp the
--   text order of the timestamps.
-- * Migrations (internal/store/sqlite/migrate.go): the migration files and their versions, and in
--   Migrations/Run the migration. Migrations/Pending has the loop, Adoption the bootstrap of legacy
--   databases, Outcomes and Again how a migration ends.
-- * Workspace (internal/app/task_workspace.go): the manager of the worktrees of tasks. Workspace/Names
--   has the names of repositories, Repository the bare repository and its origin, Worktrees the
--   operations: `ensure_ready`, `prune_closed`, `current_branch` and `prepare_temporary_worktree`.
--   Workspace/Quiet and Rows have what the calls leave alone, Ready and Retention the proofs.
-- * ScheduledTasks, Schedule (internal/app/scheduled_tasks.go, scheduled_schedule.go,
--   scheduled_report_target.go): the types, the schedules, the report targets and the validation of
--   definitions. Store/Scheduled has the tables of tasks, runs and deliveries, with what an admission
--   clashes with in Store/Scheduled/Clashes.
-- * Scheduler (internal/app/scheduled_task_service.go): Scheduler/Ticks has `tick`, `tick_task` and the
--   admission of due runs, Scheduler/Execution executeRun with its retry, Scheduler/Delivery the
--   reports. Scheduler/Due, Retries, Admissions, Outcomes, Causes and Executed have the proofs.
-- * Services (internal/app/message_service.go): the interface of the store that the services take,
--   filled by the SQLite store.
-- * Message (internal/app/message_service_impl.go): the message service. `prepare_message` is
--   prepareMessage; Message/Execute has executePreparedMessage, Message/Handle HandleMessage,
--   processQueuedMessage and the executions in flight, Message/Stop StopCurrent. Message/Turns,
--   Message/Continuity, Message/Prepared, Message/Handle/Begins and Message/Stop/Effects have the
--   proofs.
-- * Clear (internal/app/daily_command_service.go): the command that starts a fresh journal
--   conversation, with what it does in Clear/Outcomes.
-- * TaskCommands (internal/app/task_service.go): the commands for tasks. TaskCommands has the one that
--   resets a conversation, Create, Switch, Close and Show the others; what they do is in
--   TaskCommands/Reset, Create/Naming, Create/Routing, Switch/Choice, Close/Choice and Show/Lines.
--
-- Errors and state: a call that may fail is an `Action`, a function of the state to a result and
-- the next state; `or_wrap` is fmt.Errorf with %w. Each call of the database driver takes the next
-- of the `answers` of the store, so every call may be refused; a statement that has gone through
-- is taken to report its rows and to parse, so the errors of RowsAffected, of the iteration and of
-- the parsing of stored times are not modelled. Foreign keys are enforced. Every write fills in
-- the branch and the worktree status of a task, so the defaults for an empty column at a read are
-- not modelled either.
--
-- Handlers that wait for a turn are in two parts, before and behind the turn, so that other calls
-- come between; the cancellation of a context is the error that the Codex gateway then returns.
-- The runs that a tick starts are values, which are executed and reported by further calls.
-- Recursion is structural, but for the loop over the due times of a schedule: its fuel is two more
-- than the present in nanoseconds, and as the due times go up the loop ends before.
--
-- Parameters: the date in the configured time zone, the parsing and printing of times, the parsing
-- of cron expressions with the times that follow one, git, the file system and its paths, SHA-256,
-- strconv.Quote, what SQLite does for the script of a migration, Go's Unicode tables and
-- strings.EqualFold, and what the services are given besides the store (the daily memory, the
-- Codex gateway, the sinks and the cleanups, the sender of reports), with laws where a theorem
-- needs them.
--
-- The mode of the bot is one of the two that the configuration lets through, so the error of
-- ResolveMessageKey for an unsupported mode is not modelled.
--
-- Not modelled: logging; WaitForDrain and the wait groups; the constructors' checks for nil;
-- ParseDailyLogicalKey, which the daily memory uses; the ticker that calls `tick`, and the context
-- without cancellation that the scheduler writes with; the MCP servers of the scheduled tasks;
-- configuration, the Codex subprocess, the daily memory, and the Discord runtime with its output,
-- which are I/O or later parts of the library.
pub mod Prelude
pub mod Errors
pub mod Queue
pub mod TaskName
pub mod TaskOverride
pub mod TaskBranch
pub mod Types
pub mod Daily
pub mod ScheduledTasks
pub mod Schedule
pub mod Store
pub mod Services
pub mod Commands
pub mod Policy
pub mod Message
pub mod Migrations
pub mod Clear
pub mod TaskCommands
pub mod Scheduler
pub mod Workspace
