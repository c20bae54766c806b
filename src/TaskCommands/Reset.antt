-- ===== src/TaskCommands/Reset.antt =====
-- internal/app/task_service.go: what resetting the conversation of a task does, over the SQLite store.
use claw.Prelude.{
  ◌≡◌, refl, sym, ap, ◌∙◌, inl, inr, Bool, true, false, ◌&&◌, Option, none, some, Bool-cases,
  if◌then◌else◌,
}
use claw.Prelude.Text.{Text, codes, text_eq}
use claw.Errors.{Error, wrap, Result, ok, err, wrap_rule, succeed}
use claw.Types.{Mode, thread, mode_eq, MessageResponse, ThreadBinding, Task, ActiveTask}
use claw.TaskBranch.{Unicode}
use claw.Queue.{QueueCoordinator, snapshot}
use claw.Store.{Store}
use claw.Store.Bindings.{binding_of, get_thread_binding, delete_thread_binding}
use claw.Store.Bindings.Threads.{
  get-ok, get-err, delete-ok, delete-err, get_task-bindings, binding_of-tables,
  get_active_task-bindings,
}
use claw.Store.Tasks.{get_task, get_active_task}
use claw.Services.{sqlite_store}
use claw.Message.Replies.{build_execution_key, no_active_task_message}
use claw.Message.Turns.{Keeps}
use claw.Clear.{is_busy}
use claw.TaskCommands.{
  task_command_response, not_loaded_message, still_busy_message, reset_message, has_binding,
  key_for, delete_binding_of, reset_binding, reset_task, reset_active, reset_context,
}

module _ {R : Type 0} (u : Unicode) (command_name : Text) (c : QueueCoordinator R)
    (user_id : Text) where
  abbrev busy_at : Task → Bool
  busy_at task = is_busy (snapshot (build_execution_key thread (key_for user_id task)) c)

  -- The active task of the user, as it is loaded from a store, and the store behind that.
  abbrev Loaded : Store → Task → Store → Type 0
  Loaded s task w =
      (active : ActiveTask) × (v : Store) × (get_active_task user_id s ≡ (ok (some active), v))
      × (get_task user_id active.task_id v ≡ (ok (some task), w))

  -- Why the command fails: the call that failed, with its error.
  pub data ResetFault (s : Store) : Error → Type 0 where
    no_choice :
        (x : Error) (t : Store)
        → get_active_task user_id s ≡ (err x, t)
        → ResetFault s (wrap (codes "load active task") x)
    no_details :
        (x : Error) (active : ActiveTask) (v t : Store)
        → get_active_task user_id s ≡ (ok (some active), v)
        → get_task user_id active.task_id v ≡ (err x, t)
        → ResetFault s (wrap (codes "load active task details") x)
    no_binding :
        (x : Error) (task : Task) (w t : Store)
        → Loaded s task w
        → busy_at task ≡ false
        → get_thread_binding thread (key_for user_id task) w ≡ (err x, t)
        → ResetFault s (wrap (codes "load task thread binding") x)
    not_deleted :
        (x : Error) (task : Task) (w v t : Store) (found : Option ThreadBinding)
        → Loaded s task w
        → busy_at task ≡ false
        → get_thread_binding thread (key_for user_id task) w ≡ (ok found, v)
        → delete_thread_binding thread (key_for user_id task) v ≡ (err x, t)
        → ResetFault s (wrap (codes "delete task thread binding") x)

  -- The ways the command ends.
  pub data ResetFrom (s : Store) : Result MessageResponse × Store → Type 0 where
    failed : (e : Error) (t : Store) → ResetFault s e → Keeps s t → ResetFrom s (err e, t)
    no_active :
        (t : Store)
        → get_active_task user_id s ≡ (ok none, t)
        → Keeps s t
        → ResetFrom s (ok (task_command_response (no_active_task_message command_name)), t)
    not_loaded :
        (active : ActiveTask) (v t : Store)
        → get_active_task user_id s ≡ (ok (some active), v)
        → get_task user_id active.task_id v ≡ (ok none, t)
        → Keeps s t
        → ResetFrom s
            (ok (task_command_response (not_loaded_message command_name active.task_id)), t)
    busy :
        (task : Task) (t : Store)
        → Loaded s task t
        → busy_at task ≡ true
        → Keeps s t
        → ResetFrom s (ok (task_command_response (still_busy_message command_name)), t)
    reset :
        (task : Task) (w t : Store)
        → Loaded s task w
        → busy_at task ≡ false
        → ((mode : Mode) (key : Text)
            → binding_of mode key t ≡ (
                if mode_eq mode thread && text_eq key (key_for user_id task)
                then none
                else binding_of mode key s))
        → ResetFrom s (
          ok (
              task_command_response
                (reset_message (has_binding (binding_of thread (key_for user_id task) s)) task)),
          t,
        )

  module _ (s : Store) where
    delete_binding_of-ResetFrom :
        (task : Task) (w t : Store) (found : Option ThreadBinding)
        → Loaded s task w
        → busy_at task ≡ false
        → get_thread_binding thread (key_for user_id task) w ≡ (ok found, t)
        → Keeps s t
        → ResetFrom s (
            delete_binding_of
              (sqlite_store u)
              task
              (key_for user_id task)
              (binding_of thread (key_for user_id task) s)
              t)
    delete_binding_of-ResetFrom task w t found loaded idle got k =
        wrap_rule (ResetFrom s) (codes "delete task thread binding")
          (delete_thread_binding thread (key_for user_id task))
          (λ _. succeed (
            task_command_response
              (reset_message (has_binding (binding_of thread (key_for user_id task) s)) task)))
          t
          (λ _ v e. reset task w v loaded idle (λ mode key.
            delete-ok thread (key_for user_id task) t v e mode key
            ∙ rw (binding_of-tables mode key s t k) refl))
          (λ x v e.
            failed _ v (not_deleted x task w t v found loaded idle got e)
              (ap (λ y. y.thread_bindings) (delete-err thread (key_for user_id task) t v x e) ∙ k))

    reset_binding-ResetFrom :
        (task : Task) (t : Store)
        → Loaded s task t
        → busy_at task ≡ false
        → Keeps s t
        → ResetFrom s (reset_binding (sqlite_store u) task (key_for user_id task) t)
    unfolding reset_binding
    reset_binding-ResetFrom task t loaded idle k =
        wrap_rule (ResetFrom s) (codes "load task thread binding")
          (get_thread_binding thread (key_for user_id task))
          (delete_binding_of (sqlite_store u) task (key_for user_id task)) t
          (λ found v e.
            let (at, same) = get-ok thread (key_for user_id task) t v found e in
            rw (at, binding_of-tables thread (key_for user_id task) s t k)
              (delete_binding_of-ResetFrom task t v found loaded idle e
                (ap (λ y. y.thread_bindings) same ∙ k)))
          (λ x v e.
            failed _ v (no_binding x task t v loaded idle e)
              (ap (λ y. y.thread_bindings) (get-err thread (key_for user_id task) t v x e) ∙ k))

    reset_task-ResetFrom :
        (active : ActiveTask) (v t : Store) (o : Option Task)
        → get_active_task user_id s ≡ (ok (some active), v)
        → get_task user_id active.task_id v ≡ (ok o, t)
        → Keeps s t
        → ResetFrom s (reset_task (sqlite_store u) command_name c user_id active.task_id o t)
    unfolding reset_task
    reset_task-ResetFrom active v t none a g k = not_loaded active v t a g k
    reset_task-ResetFrom active v t (some task) a g k = elim (Bool-cases (busy_at task)) [
      | inl h ↦ rw h (busy task t (active, v, a, g) h k)
      | inr h ↦ rw h (reset_binding-ResetFrom task t (active, v, a, g) h k)
    ]

    reset_active-ResetFrom :
        (v : Store) (o : Option ActiveTask)
        → get_active_task user_id s ≡ (ok o, v)
        → Keeps s v
        → ResetFrom s (reset_active (sqlite_store u) command_name c user_id o v)
    unfolding reset_active
    reset_active-ResetFrom v none a k = no_active v a k
    reset_active-ResetFrom v (some active) a k =
        wrap_rule (ResetFrom s) (codes "load active task details") (get_task user_id active.task_id)
          (reset_task (sqlite_store u) command_name c user_id active.task_id) v
          (λ o w e. reset_task-ResetFrom active v w o a e (
            ap (λ x. x.1.tables.thread_bindings) (sym e)
            ∙ (get_task-bindings user_id active.task_id v ∙ k)))
          (λ x w e. failed _ w (no_details x active v w a e) (
            ap (λ y. y.1.tables.thread_bindings) (sym e)
            ∙ (get_task-bindings user_id active.task_id v ∙ k)))

  -- Resetting the conversation of a user's active task fails with the error of the call that failed, or
  -- tells that the user has no active task, that its task cannot be loaded, or that a turn runs or a
  -- message waits for it, each when that is so, and changes no binding; or nothing runs or waits, and
  -- then the binding of that task is gone, so that the next turn starts a new thread, every other
  -- binding stays, and the reply tells whether there was one.
  pub reset_context-ResetFrom :
      (s : Store) → ResetFrom s (reset_context (sqlite_store u) command_name c user_id s)
  unfolding reset_context
  reset_context-ResetFrom s =
      wrap_rule (ResetFrom s) (codes "load active task") (get_active_task user_id)
        (reset_active (sqlite_store u) command_name c user_id) s
        (λ o v e.
          reset_active-ResetFrom s v o e
            (ap (λ x. x.1.tables.thread_bindings) (sym e) ∙ get_active_task-bindings user_id s))
        (λ x v e.
          failed _ v (no_choice x v e)
            (ap (λ y. y.1.tables.thread_bindings) (sym e) ∙ get_active_task-bindings user_id s))
