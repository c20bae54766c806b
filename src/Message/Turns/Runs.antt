-- ===== src/Message/Turns/Runs.antt =====
-- internal/app/message_service_impl.go: the turn itself.
use claw.Prelude.{
  ℕ, ◌≡◌, refl, sym, ap, subst, ◌∙◌, inl, inr, true, false, ◌&&◌, Option, none, some, arith,
  Bool-cases,
}
use claw.Prelude.Text.{Text, text_eq, text_eq_iff, is_empty, trim_space, codes}
use claw.Errors.{wrapped, Result, ok, err, ◌>>◌, wrap_rule}
use claw.Types.{Mode, journal, thread, mode_eq, ThreadBinding, Task, RunTurnResult, CodexTurnInput}
use claw.TaskBranch.{Unicode}
use claw.Store.{Store}
use claw.Store.Bindings.{
  has_key, get_thread_binding, upsert_thread_binding, binding_of, mode_eq_trans,
}
use claw.Store.Bindings.Threads.{
  thread_of, thread_at, binding_of-key, binding_of-tables, get-ok, get-err, upsert-err, upsert-ok,
  get_task-bindings, update_task-bindings,
}
use claw.Store.Tasks.{get_task}
use claw.Message.{Dependencies, PreparedMessage}
use claw.Message.Execute.{
  binding_for, response_text, finish_turn, execute_turn, touch, touch_in, answer, progress,
  run_from, touch_task_last_used,
}
use claw.Message.Turns.{
  Keeps, IsApart, on_sqlite, Before, Ran, ran, no_binding, no_turn, blank, not_stored, Turned,
  failed, turned,
}

module _ (u : Unicode) (base : Dependencies Store) (apart : IsApart base) where
  -- The binding that a turn starts from has the key of the message.
  binding_for-key :
      (p : PreparedMessage) (s : Store) (mode : Mode) (key : Text)
      → has_key mode key (binding_for base.mode p (binding_of base.mode p.logical_key s))
        ≡ (mode_eq base.mode mode && text_eq p.logical_key key)
  binding_for-key p s mode key =
      by_found base.mode (binding_of base.mode p.logical_key s)
        (binding_of-key base.mode p.logical_key s)
    where
      key_same :
          (own : Mode) (b : ThreadBinding)
          → has_key own p.logical_key b ≡ true
          → has_key mode key b ≡ (mode_eq own mode && text_eq p.logical_key key)
      key_same own b h = ground (
        arith,
        mode_eq_trans b.mode own mode,
        text_eq_iff b.logical_thread_key key,
        text_eq_iff p.logical_key key,
        text_eq_iff b.logical_thread_key p.logical_key,
      )

      by_found :
          (own : Mode) (found : Option ThreadBinding)
          → ((b : ThreadBinding) → found ≡ some b → has_key own p.logical_key b ≡ true)
          → has_key mode key (binding_for own p found)
            ≡ (mode_eq own mode && text_eq p.logical_key key)
      by_found journal none h = refl
      by_found thread none h = refl
      by_found journal (some b) h = key_same journal b (h b refl)
      by_found thread (some b) h = key_same thread b (h b refl)

  pub wrapped-state : {A : Type 0} (t : Text) (r : Result A × Store) → (wrapped t r).1 ≡ r.1
  wrapped-state t (ok a, w) = refl
  wrapped-state t (err e, w) = refl

  touch-Keeps : (o : Option Task) (s : Store) → Keeps s (touch (on_sqlite u base) o s).1
  touch-Keeps none s = refl
  touch-Keeps (some task) s = rw wrapped-state (update_task-bindings u _ s)

  touch_task_last_used-Keeps :
      (user_id task_id : Text) (s : Store)
      → Keeps s (touch_task_last_used (on_sqlite u base) user_id task_id s).1
  unfolding touch_task_last_used
  touch_task_last_used-Keeps user_id task_id s =
      wrap_rule (λ r. Keeps s r.1) (codes "load task before last-used update")
        (get_task user_id task_id) (touch (on_sqlite u base)) s
        (λ o v e.
          touch-Keeps o v
          ∙ (ap (λ x. x.1.tables.thread_bindings) (sym e) ∙ get_task-bindings user_id task_id s))
        (λ x v e.
          ap (λ x. x.1.tables.thread_bindings) (sym e) ∙ get_task-bindings user_id task_id s)

  touched :
      (mode : Mode) (p : PreparedMessage) (s : Store)
      → (t : Store) × (touch_in (on_sqlite u base) mode p s ≡ (ok tt, t)) × Keeps s t
  touched journal p s = (s, refl, refl)
  touched thread p s = (_, refl, touch_task_last_used-Keeps p.user_id p.task_id s)

  pub thread_at-tables :
      (mode : Mode) (key : Text) (s t : Store)
      → Keeps s t
      → thread_at mode key t ≡ thread_at mode key s
  thread_at-tables mode key s t k = ap thread_of (binding_of-tables mode key s t k)

  finish_turn-Turned :
      (p : PreparedMessage) (s t : Store) (input : CodexTurnInput) (r : RunTurnResult)
      (b : ThreadBinding)
      → ((mode : Mode) (key : Text)
          → has_key mode key b ≡ (mode_eq base.mode mode && text_eq p.logical_key key))
      → Ran u base p s input (ok r, t)
      → Keeps s t
      → Turned u base p s (finish_turn (on_sqlite u base) (record p { input = input }) b r t)
  unfolding finish_turn response_text
  finish_turn-Turned p s t input r b keyed x k =
      elim (Bool-cases (is_empty (trim_space r.thread_id))) [
        | inl h ↦ rw h (failed _ t (blank input r t x h) k)
        | inr h ↦ rw h (
            wrap_rule (Turned u base p s) (codes "persist thread binding")
              (upsert_thread_binding (record b { codex_thread_id = r.thread_id }))
              (λ _. answer (on_sqlite u base) (record p { input = input }) r) t
              (λ _ w stored. answered w stored (touched base.mode (record p { input = input }) w) h)
              (λ e w lost.
                failed _ w
                  (not_stored e input r (record b { codex_thread_id = r.thread_id }) t w x keyed
                    refl lost)
                  (ap (λ y. y.thread_bindings) (upsert-err _ t w e lost) ∙ k)))
      ]
    where
      answered :
          (w : Store)
          → upsert_thread_binding (record b { codex_thread_id = r.thread_id }) t ≡ (ok tt, w)
          → ((x : Store) × (touch_in (on_sqlite u base) base.mode (record p { input = input }) w
                ≡ (ok tt, x))
              × Keeps w x)
          → is_empty (trim_space r.thread_id) ≡ false
          → Turned u base p s (answer (on_sqlite u base) (record p { input = input }) r w)
      answered w stored (x', e, kept) h = rw e (
          turned r x' input t x h (λ mode key.
            thread_at-tables mode key w x' kept
            ∙ (upsert-ok (record b { codex_thread_id = r.thread_id }) t w stored mode key
                ∙ rw (keyed mode key, thread_at-tables mode key s t k) refl)))

  progressed :
      (sink : Option ℕ) (s : Store)
      → (t : Store) × (progress (on_sqlite u base) sink s ≡ (ok tt, t)) × Keeps s t
  progressed none s = (s, refl, refl)
  progressed (some sink) s = (_, refl, apart.delivers sink _ s)

  run_from-Turned :
      (p : PreparedMessage) (s t : Store) (input : CodexTurnInput)
      → Ran u base p s input (base.run_turn (thread_at base.mode p.logical_key s) input t)
      → Keeps s t
      → Turned u base p s (
          run_from
            (on_sqlite u base)
            (record p { input = input })
            (binding_of base.mode p.logical_key s)
            t)
  run_from-Turned p s t input x k =
      wrap_rule (Turned u base p s) (codes "run codex turn")
        (base.run_turn (thread_at base.mode p.logical_key s) input)
        (finish_turn (on_sqlite u base) (record p { input = input })
          (binding_for base.mode p (binding_of base.mode p.logical_key s)))
        t
        (λ r v e.
          finish_turn-Turned p s v input r _ (binding_for-key p s)
            (subst (Ran u base p s input) e x)
            (ap (λ y. y.1.tables.thread_bindings) (sym e) ∙ (apart.runs _ input t ∙ k)))
        (λ y v e.
          failed _ v (no_turn y input v (subst (Ran u base p s input) e x))
            (ap (λ z. z.1.tables.thread_bindings) (sym e) ∙ (apart.runs _ input t ∙ k)))

  pub execute_turn-Turned :
      (p : PreparedMessage) (s t : Store) (input : CodexTurnInput)
      → Before u base p s input t
      → Keeps s t
      → Turned u base p s (execute_turn (on_sqlite u base) (record p { input = input }) t)
  unfolding execute_turn
  execute_turn-Turned p s t input i k =
      wrap_rule (Turned u base p s) (codes "load thread binding")
        (get_thread_binding base.mode p.logical_key)
        (λ found.
          progress (on_sqlite u base) input.progress_sink
          >> run_from (on_sqlite u base) (record p { input = input }) found)
        t
        (λ found v e.
          found_one found v e (get-ok base.mode p.logical_key t v found e)
            (progressed input.progress_sink v))
        (λ x v e.
          failed _ v (no_binding x input t v i e)
            (ap (λ y. y.thread_bindings) (get-err base.mode p.logical_key t v x e) ∙ k))
    where
      found_one :
          (found : Option ThreadBinding) (v : Store)
          → get_thread_binding base.mode p.logical_key t ≡ (ok found, v)
          → (found ≡ binding_of base.mode p.logical_key t) × (v.tables ≡ t.tables)
          → ((x : Store) × (progress (on_sqlite u base) input.progress_sink v ≡ (ok tt, x))
              × Keeps v x)
          → Turned u base p s (
              (progress (on_sqlite u base) input.progress_sink
                  >> run_from (on_sqlite u base) (record p { input = input }) found)
                v)
      found_one found v got (at, same) (x, e', kept) =
          rw (e', at, binding_of-tables base.mode p.logical_key s t k)
            (run_from-Turned p s x input
              (subst
                (λ y.
                  Ran u base p s input
                    (base.run_turn (thread_at base.mode p.logical_key s) input y))
                (ap (λ y. y.1) e') (ran input t v found i got))
              (kept ∙ (ap (λ y. y.thread_bindings) same ∙ k)))
