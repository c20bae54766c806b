-- ===== src/Message/Turns.antt =====
-- internal/app/message_service_impl.go: the ways in which an executed message ends.
-- The service is built on the SQLite store; what else it calls may use the store, but not the table
-- of bindings.
pub mod Runs
pub mod Outcomes
use claw.Prelude.{
  ℕ, ◌≡◌, ◌≢◌, refl, sym, ap, ◌∙◌, ◌⊎◌, inl, inr, Bool, true, false, ◌&&◌, Option, none, some, List,
  [], ◌∷◌, if◌then◌else◌, arith, subst, Option-cases, Bool-cases,
}
use claw.Prelude.Text.{Text, text_eq, text_eq_iff, text_eq_refl, is_empty, trim_space, codes}
use claw.Errors.{
  Error, message, wrap, wrapped, Result, ok, err, Action, ◌>>=◌, ◌>>◌, or_wrap, wrap_rule,
  continue_with, attempt,
}
use claw.Types.{
  Mode, journal, thread, mode_eq, MessageResponse, ThreadBinding, DailySession, Task, is_open,
  RunTurnResult, CodexTurnInput,
}
use claw.TaskBranch.{Unicode}
use claw.Store.{Store}
use claw.Store.Bindings.{
  has_key, get_thread_binding, upsert_thread_binding, binding_of, mode_eq_trans,
}
use claw.Store.Bindings.Threads.{
  thread_of, thread_at, binding_of-key, binding_of-tables, get-ok, get-err, upsert-err, upsert-ok,
  get_task-bindings, update_task-bindings,
}
use claw.Store.Tasks.{get_task}
use claw.Services.{sqlite_store}
use claw.Message.{Dependencies, PreparedMessage}
use claw.Message.Replies.{reply_to}
use claw.Message.Execute.{
  binding_for, response_text, no_task_reply, setup_failed_reply, finish_turn, execute_turn,
  working_in, touch, touch_in, answer, progress, run_from, execute_ready, ready_or_reply,
  ensure_task_ready, readiness, execute_in, run_cleanup, after_cleanup, Readiness, ready, replied,
  touch_task_last_used, execute_prepared_message,
}

abbrev pub Keeps : Store → Store → Type 0
Keeps s t = t.tables.thread_bindings ≡ s.tables.thread_bindings

-- The calls besides the store leave the table of bindings alone.
pub record IsApart (d : Dependencies Store) : Type 0 where
  pub ensures : (task : Task) (s : Store) → Keeps s (d.ensure_ready task s).1
  pub refreshes : (x : DailySession) (s : Store) → Keeps s (d.refresh_before_first_daily_turn x s).1
  pub runs : (id : Text) (input : CodexTurnInput) (s : Store) → Keeps s (d.run_turn id input s).1
  pub delivers : (sink : ℕ) (text : Text) (s : Store) → Keeps s (d.deliver_progress sink text s).1
  pub cleans : (c : ℕ) (s : Store) → Keeps s (d.run_cleanup c s)

module _ (u : Unicode) (base : Dependencies Store) where
  -- The service on the SQLite store.
  abbrev pub on_sqlite : Dependencies Store
  on_sqlite = record base { store = sqlite_store u }

  -- The state that a turn starts in, with its input: in journal mode the daily memory was refreshed,
  -- and in thread mode the open task of the message was made ready and the turn works in its worktree.
  pub data Before (p : PreparedMessage) (s : Store) : CodexTurnInput → Store → Type 0 where
    plain :
        base.mode ≡ journal
        → Before p s p.input (base.refresh_before_first_daily_turn p.daily_session s).1
    inside :
        (before task : Task) (v t : Store)
        → base.mode ≡ thread
        → get_task p.user_id p.task_id s ≡ (ok (some before), v)
        → is_open before.status ≡ true
        → base.ensure_ready before v ≡ (ok task, t)
        → Before p s (working_in base p task).input t

  -- The turn of the message, which runs in the thread of its key and behind the notice of progress.
  pub data Ran (p : PreparedMessage) (s : Store)
      : CodexTurnInput → Result RunTurnResult × Store → Type 0 where
    ran :
        (input : CodexTurnInput) (t v : Store) (found : Option ThreadBinding)
        → Before p s input t
        → get_thread_binding base.mode p.logical_key t ≡ (ok found, v)
        → Ran p s input (
            base.run_turn
              (thread_at base.mode p.logical_key s)
              input
              (progress on_sqlite input.progress_sink v).1)

  -- Why a message fails: the call that failed, with its error.
  pub data Fault (p : PreparedMessage) (s : Store) : Error → Type 0 where
    no_task :
        (x : Error) (t : Store)
        → base.mode ≡ thread
        → get_task p.user_id p.task_id s ≡ (err x, t)
        → Fault p s (wrap (codes "load task for execution") x)
    no_binding :
        (x : Error) (input : CodexTurnInput) (t v : Store)
        → Before p s input t
        → get_thread_binding base.mode p.logical_key t ≡ (err x, v)
        → Fault p s (wrap (codes "load thread binding") x)
    no_turn :
        (x : Error) (input : CodexTurnInput) (t : Store)
        → Ran p s input (err x, t)
        → Fault p s (wrap (codes "run codex turn") x)
    blank :
        (input : CodexTurnInput) (r : RunTurnResult) (t : Store)
        → Ran p s input (ok r, t)
        → is_empty (trim_space r.thread_id) ≡ true
        → Fault p s (message (codes "codex gateway returned an empty thread id"))
    not_stored :
        (x : Error) (input : CodexTurnInput) (r : RunTurnResult) (b : ThreadBinding) (t v : Store)
        → Ran p s input (ok r, t)
        → ((mode : Mode) (key : Text)
            → has_key mode key b ≡ (mode_eq base.mode mode && text_eq p.logical_key key))
        → b.codex_thread_id ≡ r.thread_id
        → upsert_thread_binding b t ≡ (err x, v)
        → Fault p s (wrap (codes "persist thread binding") x)

  -- Why a message is refused: its task is not there or not open, or its worktree is not ready.
  pub data Refusal (p : PreparedMessage) (s : Store) : MessageResponse → Type 0 where
    unknown :
        (t : Store)
        → get_task p.user_id p.task_id s ≡ (ok none, t)
        → Refusal p s (no_task_reply base p)
    not_open :
        (task : Task) (t : Store)
        → get_task p.user_id p.task_id s ≡ (ok (some task), t)
        → is_open task.status ≡ false
        → Refusal p s (no_task_reply base p)
    not_set_up :
        (x : Error) (task : Task) (v t : Store)
        → get_task p.user_id p.task_id s ≡ (ok (some task), v)
        → is_open task.status ≡ true
        → base.ensure_ready task v ≡ (err x, t)
        → Refusal p s (setup_failed_reply base p)

  -- The ways a message ends: with an error and its cause, with a reply in place of a turn in thread
  -- mode, or with the answer of a turn that ran in the thread of the key; then the key has the thread
  -- that the turn returned, and the other keys have the threads that they had.
  pub data Turned (p : PreparedMessage) (s : Store) : Result MessageResponse × Store → Type 0 where
    failed : (e : Error) (t : Store) → Fault p s e → Keeps s t → Turned p s (err e, t)
    refused :
        (reply : MessageResponse) (t : Store)
        → base.mode ≡ thread
        → Refusal p s reply
        → Keeps s t
        → Turned p s (ok reply, t)
    turned :
        (r : RunTurnResult) (t : Store) (input : CodexTurnInput) (v : Store)
        → Ran p s input (ok r, v)
        → is_empty (trim_space r.thread_id) ≡ false
        → ((mode : Mode) (key : Text)
            → thread_at mode key t ≡ (
                if mode_eq base.mode mode && text_eq p.logical_key key
                then r.thread_id
                else thread_at mode key s))
        → Turned p s (ok (reply_to p.reply_to_id (response_text p r)), t)
