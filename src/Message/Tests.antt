-- ===== src/Message/Tests.antt =====
-- The message service over the SQLite store, with a Codex that answers with its prompt in one thread.
use claw.Prelude.{
  ℕ, ◌≡◌, refl, Bool, true, false, Option, none, some, List, [], ◌∷◌, map, length, if◌then◌else◌,
}
use claw.Prelude.Text.{Text, codes, is_empty}
use claw.Errors.{sentinel, canceled, ok, err, succeed}
use claw.Types.{Mode, journal, MessageRequest, RunTurnResult}
use claw.TaskBranch.Tests.{ascii}
use claw.Store.{Store}
use claw.Store.Tests.{store, session}
use claw.Store.Bindings.{get_thread_binding, upsert_thread_binding}
use claw.Store.Bindings.Threads.{thread_at}
use claw.Services.{sqlite_store}
use claw.Queue.{QueueCoordinator, new_queue_coordinator, admit}
use claw.Message.{Dependencies, PreparedMessage, prepare_message}
use claw.Message.Replies.{reply_to, stopped_message, build_execution_key}
use claw.Message.Execute.{response_text, execute_prepared_message}
use claw.Message.Turns.{IsApart, on_sqlite, Turned}
use claw.Message.Turns.Outcomes.{execute_prepared_message-Turned}
use claw.Message.Continuity.{execute_prepared_message-continues}
use claw.Message.Prepared.{PreparedFor, prepare_message-PreparedFor}
use claw.Message.Handle.{Service, begin_message, finish_message, started}
use claw.Message.Handle.Begins.{Begun, begin_message-Begun}
use claw.Message.Stop.{stop_execution, stop_report}
use claw.Message.Stop.Effects.{Stopped, stop_execution_lem, stop_execution-finish}

abbrev codex : Text → Text → RunTurnResult
codex id prompt = record {
  thread_id = if is_empty id then codes "thread-2" else id;
  response_text = prompt;
  usage = none;
}

abbrev bot : Mode → Dependencies Store
bot mode = record {
  mode = mode;
  command_name = codes "claw";
  local_date = λ t. codes "2026-04-05";
  store = sqlite_store ascii;
  ensure_ready = succeed;
  refresh_before_first_daily_turn = λ x. succeed tt;
  run_turn = λ id input. succeed (codex id input.prompt);
  deliver_progress = λ sink text. succeed tt;
  deliver_reply = λ sink response. succeed tt;
  current_time = λ s. s.now;
  run_cleanup = λ c s. record s { now = c };
}

bot-IsApart : (mode : Mode) → IsApart (bot mode)
bot-IsApart mode = record {
  ensures = λ task s. refl;
  refreshes = λ x s. refl;
  runs = λ id input s. refl;
  delivers = λ sink text s. refl;
  cleans = λ c s. refl;
}

abbrev request : MessageRequest
request = record {
  user_id = codes "u";
  channel_id = codes "c";
  message_id = codes "m";
  content = codes "go";
  task_override_name = [];
  image_paths = [];
  cleanup = some 4;
  progress_sink = none;
  mentioned = true;
  received_at = 3;
}

abbrev message_of : Text → PreparedMessage
message_of prompt = record {
  logical_key = codes "2026-04-05#1";
  daily_session = session;
  user_id = codes "u";
  task_id = [];
  task_override_name = [];
  channel_id = codes "c";
  reply_to_id = codes "m";
  received_at = 3;
  input = record {
    prompt = prompt;
    image_paths = [];
    working_directory = [];
    progress_sink = none;
  };
  sink = none;
  cleanup = some 4;
}

abbrev key : Text
key = build_execution_key journal (codes "2026-04-05#1")

abbrev idle : Service Store
idle = record {
  coordinator = new_queue_coordinator;
  in_flight = λ k. none;
  stopped = λ id. false;
  next = 0;
  world = store;
}

abbrev running : Service Store
running = (begin_message (bot journal) request none idle).1

abbrev busy : Service Store
busy = (begin_message (bot journal) request none running).1

-- The first message starts, the second waits.
begins :
    ((begin_message (bot journal) request none idle).0 ≡ started key 0 (message_of (codes "go")))
    × (busy.in_flight key ≡ some 0)
unfolding begin_message prepare_message claw.Policy.resolve_message_key
    claw.Daily.resolve_active_daily_session claw.Store.Daily.get_active_daily_session
    claw.Store.driver claw.Store.query claw.Prelude.first claw.Prelude.Text.text_eq codes admit
    new_queue_coordinator claw.Queue.assign build_execution_key
begins = (refl, refl)

answers :
    (execute_prepared_message (bot journal) (message_of (codes "go")) store).0
    ≡ ok (reply_to (codes "m") (codes "go"))
unfolding execute_prepared_message get_thread_binding upsert_thread_binding claw.Store.driver
    claw.Store.query claw.Store.clock claw.Store.exec claw.Prelude.Text.is_empty
    claw.Prelude.Text.trim_space codes claw.Prelude.first claw.Prelude.Text.text_eq
answers = refl

execute_prepared_message-Turned_example :
    Turned ascii
      (bot journal)
      (message_of (codes "go"))
      store
      (execute_prepared_message (on_sqlite ascii (bot journal)) (message_of (codes "go")) store)
execute_prepared_message-Turned_example =
    execute_prepared_message-Turned ascii (bot journal) (bot-IsApart journal)
      (message_of (codes "go")) store

execute_prepared_message-continues_example :
    (r r' : RunTurnResult) × (v w : Store) × (((bot journal).run_turn
        (thread_at journal (codes "2026-04-05#1") store)
        (message_of (codes "go")).input
        v).0
      ≡ ok r)
    × (((bot journal).run_turn r.thread_id (message_of (codes "on")).input w).0 ≡ ok r')
    × (reply_to (codes "m") (codes "go")
        ≡ reply_to (codes "m") (response_text (message_of (codes "go")) r))
    × (reply_to (codes "m") (codes "on")
        ≡ reply_to (codes "m") (response_text (message_of (codes "on")) r'))
unfolding execute_prepared_message get_thread_binding upsert_thread_binding claw.Store.driver
    claw.Store.query claw.Store.clock claw.Store.exec claw.Prelude.Text.is_empty
    claw.Prelude.Text.trim_space codes claw.Prelude.first claw.Prelude.Text.text_eq
    claw.Store.Bindings.upsert_binding
execute_prepared_message-continues_example =
    execute_prepared_message-continues ascii (bot journal) (bot-IsApart journal)
      (message_of (codes "go")) (message_of (codes "on")) store (reply_to (codes "m") (codes "go"))
      (reply_to (codes "m") (codes "on")) refl refl refl refl

prepare_message-PreparedFor_example :
    PreparedFor
      (bot journal)
      request
      (some 2)
      store
      (prepare_message (bot journal) request (some 2) store)
prepare_message-PreparedFor_example =
    prepare_message-PreparedFor (bot journal) request (some 2) store

begin_message-Begun_example :
    Begun
      (bot journal)
      request
      (some 2)
      running
      (begin_message (bot journal) request (some 2) running)
begin_message-Begun_example = begin_message-Begun (bot journal) request (some 2) running

-- What waits in the busy service.
abbrev waiting : List PreparedMessage
waiting = message_of (codes "go") ∷ []

stop_execution_lem_example :
    ((stop_execution (bot journal) key busy).0 ≡ ok (stop_report true 1))
    × Stopped (bot journal) key waiting busy (stop_execution (bot journal) key busy).1
unfolding begin_message prepare_message claw.Policy.resolve_message_key
    claw.Daily.resolve_active_daily_session claw.Store.Daily.get_active_daily_session
    claw.Store.driver claw.Store.query claw.Prelude.first claw.Prelude.Text.text_eq codes admit
    new_queue_coordinator claw.Queue.assign build_execution_key
stop_execution_lem_example = stop_execution_lem (bot journal) key waiting busy refl

stop_execution-finish_example :
    ((finish_message
        (bot journal)
        key
        0
        (message_of (codes "go"))
        (err (sentinel canceled))
        (stop_execution (bot journal) key busy).1).0
      ≡ (ok (stopped_message (codes "m")), none))
    × ((finish_message
            (bot journal)
            key
            0
            (message_of (codes "go"))
            (err (sentinel canceled))
            (stop_execution (bot journal) key busy).1).1.coordinator
          key
        ≡ none)
    × ((finish_message
            (bot journal)
            key
            0
            (message_of (codes "go"))
            (err (sentinel canceled))
            (stop_execution (bot journal) key busy).1).1.in_flight
          key
        ≡ none)
unfolding begin_message prepare_message claw.Policy.resolve_message_key
    claw.Daily.resolve_active_daily_session claw.Store.Daily.get_active_daily_session
    claw.Store.driver claw.Store.query claw.Prelude.first claw.Prelude.Text.text_eq codes admit
    new_queue_coordinator claw.Queue.assign build_execution_key
stop_execution-finish_example =
    stop_execution-finish (bot journal) key 0 (message_of (codes "go")) waiting (sentinel canceled)
      busy refl refl refl
