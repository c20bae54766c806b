-- ===== src/Message/Turns/Outcomes.antt =====
-- internal/app/message_service_impl.go: from the task of the message to its cleanup.
use claw.Prelude.{true, ℕ, ◌≡◌, refl, sym, ap, ◌∙◌, inl, inr, Option, none, some, Bool-cases}
use claw.Prelude.Text.{codes}
use claw.Errors.{Error, wrap, Result, ok, err, wrap_rule, continue_with}
use claw.Types.{Mode, journal, thread, MessageResponse, Task, is_open}
use claw.TaskBranch.{Unicode}
use claw.Store.{Store}
use claw.Store.Bindings.Threads.{get_task-bindings}
use claw.Store.Tasks.{get_task}
use claw.Message.{Dependencies, PreparedMessage}
use claw.Message.Execute.{
  working_in, execute_ready, ready_or_reply, ensure_task_ready, readiness, execute_in, run_cleanup,
  after_cleanup, Readiness, ready, replied, execute_prepared_message,
}
use claw.Message.Turns.{
  Keeps, IsApart, on_sqlite, plain, inside, no_task, Refusal, unknown, not_open, not_set_up, Turned,
  failed, refused, turned,
}
use claw.Message.Turns.Runs.{thread_at-tables, execute_turn-Turned}

module _ (u : Unicode) (base : Dependencies Store) (apart : IsApart base) where
  -- The task of a message in thread mode.
  data Readied (p : PreparedMessage) (s : Store) : Result Readiness × Store → Type 0 where
    got_ready :
        (before task : Task) (v t : Store)
        → get_task p.user_id p.task_id s ≡ (ok (some before), v)
        → is_open before.status ≡ true
        → base.ensure_ready before v ≡ (ok task, t)
        → Keeps s t
        → Readied p s (ok (ready task), t)
    got_reply :
        (reply : MessageResponse) (t : Store)
        → Refusal u base p s reply
        → Keeps s t
        → Readied p s (ok (replied reply), t)
    got_error :
        (x : Error) (t : Store)
        → get_task p.user_id p.task_id s ≡ (err x, t)
        → Keeps s t
        → Readied p s (err (wrap (codes "load task for execution") x), t)

  readied :
      (p : PreparedMessage) (s v : Store) (before : Task) (r : Result Task × Store)
      → get_task p.user_id p.task_id s ≡ (ok (some before), v)
      → is_open before.status ≡ true
      → base.ensure_ready before v ≡ r
      → Keeps s r.1
      → Readied p s (ok (readiness (on_sqlite u base) p r.0), r.1)
  readied p s v before (ok task, t) g h e k = got_ready before task v t g h e k
  readied p s v before (err x, t) g h e k = got_reply _ t (not_set_up x before v t g h e) k

  ready_or_reply-Readied :
      (p : PreparedMessage) (s v : Store) (o : Option Task)
      → get_task p.user_id p.task_id s ≡ (ok o, v)
      → Keeps s v
      → Readied p s (ready_or_reply (on_sqlite u base) p o v)
  unfolding ready_or_reply
  ready_or_reply-Readied p s v none g k = got_reply _ v (unknown v g) k
  ready_or_reply-Readied p s v (some task) g k = elim (Bool-cases (is_open task.status)) [
    | inl h ↦
        rw h (readied p s v task (base.ensure_ready task v) g h refl (apart.ensures task v ∙ k))
    | inr h ↦ rw h (got_reply _ v (not_open task v g h) k)
  ]

  ensure_task_ready-Readied :
      (p : PreparedMessage) (s : Store) → Readied p s (ensure_task_ready (on_sqlite u base) p s)
  unfolding ensure_task_ready
  ensure_task_ready-Readied p s =
      wrap_rule (Readied p s) (codes "load task for execution") (get_task p.user_id p.task_id)
        (ready_or_reply (on_sqlite u base) p) s
        (λ o v e.
          ready_or_reply-Readied p s v o e (
            ap (λ x. x.1.tables.thread_bindings) (sym e) ∙ get_task-bindings p.user_id p.task_id s))
        (λ x v e.
          got_error x v e (
            ap (λ y. y.1.tables.thread_bindings) (sym e) ∙ get_task-bindings p.user_id p.task_id s))

  from_Readied :
      (p : PreparedMessage) (s : Store) (r : Result Readiness × Store)
      → base.mode ≡ thread
      → Readied p s r
      → Turned u base p s (continue_with (execute_ready (on_sqlite u base) p) r)
  from_Readied p s _ m (got_ready before task v t g h e k) =
      execute_turn-Turned u base apart p s t (working_in (on_sqlite u base) p task).input
        (inside before task v t m g h e) k
  from_Readied p s _ m (got_reply reply t why k) = refused reply t m why k
  from_Readied p s _ m (got_error x t g k) = failed _ t (no_task x t m g) k

  execute_in-Turned :
      (mode : Mode) (p : PreparedMessage) (s : Store)
      → base.mode ≡ mode
      → Turned u base p s (execute_in (on_sqlite u base) mode p s)
  unfolding execute_in
  execute_in-Turned journal p s m =
      execute_turn-Turned u base apart p s _ p.input (plain m) (apart.refreshes p.daily_session s)
  execute_in-Turned thread p s m = from_Readied p s _ m (ensure_task_ready-Readied p s)

  run_cleanup-Keeps : (c : Option ℕ) (s : Store) → Keeps s (run_cleanup (on_sqlite u base) c s)
  run_cleanup-Keeps none s = refl
  run_cleanup-Keeps (some c) s = apart.cleans c s

  after_cleanup-Turned :
      (p : PreparedMessage) (s : Store) (c : Option ℕ) (r : Result MessageResponse × Store)
      → Turned u base p s r
      → Turned u base p s (after_cleanup (on_sqlite u base) c r)
  after_cleanup-Turned p s c _ (failed e t f k) = failed e _ f (run_cleanup-Keeps c t ∙ k)
  after_cleanup-Turned p s c _ (refused reply t m why k) =
      refused reply _ m why (run_cleanup-Keeps c t ∙ k)
  after_cleanup-Turned p s c _ (turned r t input v x h now) = turned r _ input v x h (λ mode key.
      thread_at-tables u base apart mode key t (run_cleanup (on_sqlite u base) c t)
        (run_cleanup-Keeps c t)
      ∙ now mode key)

  -- Let the service stand on the SQLite store, and let its other calls leave the table of bindings alone.
  -- A message that is executed ends in one of three ways. It fails with the error of the call that
  -- failed: of its task, its binding, its turn, or the storing of the thread, or it fails because the
  -- turn returned no thread. In thread mode it is refused with a reply, when its task is not there or
  -- not open, or when the worktree cannot be made ready. Else its turn runs, in journal mode behind
  -- the refresh and in thread mode in the worktree of the open task, in the thread that its key had,
  -- and leaves the key with the thread that the turn returned. Every other key keeps its thread, and
  -- all keys do when it fails or is refused.
  pub execute_prepared_message-Turned :
      (p : PreparedMessage) (s : Store)
      → Turned u base p s (execute_prepared_message (on_sqlite u base) p s)
  unfolding execute_prepared_message
  execute_prepared_message-Turned p s =
      after_cleanup-Turned p s p.cleanup (execute_in (on_sqlite u base) base.mode p s)
        (execute_in-Turned base.mode p s refl)
