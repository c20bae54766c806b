-- ===== src/Message/Continuity.antt =====
-- internal/app/message_service_impl.go: a conversation goes on in the Codex thread that it has.
use claw.Prelude.{◌≡◌, refl, ap, ◌∙◌, arith, subst}
use claw.Prelude.Text.{Text, text_eq_refl}
use claw.Errors.{Result, ok}
use claw.Types.{journal, MessageResponse, RunTurnResult, CodexTurnInput}
use claw.TaskBranch.{Unicode}
use claw.Store.{Store}
use claw.Store.Bindings.Threads.{thread_at}
use claw.Message.{Dependencies, PreparedMessage}
use claw.Message.Replies.{reply_to}
use claw.Message.Execute.{response_text, progress, execute_prepared_message}
use claw.Message.Turns.{
  IsApart, on_sqlite, Before, Ran, ran, plain, inside, Turned, failed, refused, turned,
}
use claw.Message.Turns.Outcomes.{execute_prepared_message-Turned}

module _ (u : Unicode) (base : Dependencies Store) (apart : IsApart base) where
  -- A turn that answered in journal mode, read off `Turned`.
  abbrev Answered : PreparedMessage → Text → MessageResponse → Store → RunTurnResult → Type 0
  Answered p id reply t r =
      (v : Store) × ((base.run_turn id p.input v).0 ≡ ok r)
      × (reply ≡ reply_to p.reply_to_id (response_text p r))
      × (thread_at journal p.logical_key t ≡ r.thread_id)

  same_input :
      (p : PreparedMessage) (s t : Store) (input : CodexTurnInput)
      → base.mode ≡ journal
      → Before u base p s input t
      → input ≡ p.input
  same_input p s _ _ m (plain m') = refl
  same_input p s _ _ m (inside before task v t m' g h e) = absurd (ground (arith, m, m'))

  Ran-in_journal :
      (p : PreparedMessage) (s : Store) (input : CodexTurnInput) (x : Result RunTurnResult × Store)
      (r : RunTurnResult)
      → base.mode ≡ journal
      → Ran u base p s input x
      → x.0 ≡ ok r
      → (v : Store) × ((base.run_turn (thread_at journal p.logical_key s) p.input v).0 ≡ ok r)
  Ran-in_journal p s _ _ r m (ran input t v found b g) h = (
    (progress (on_sqlite u base) input.progress_sink v).1,
    subst
        (λ y.
          (base.run_turn (thread_at journal p.logical_key s) y
            (progress (on_sqlite u base) input.progress_sink v).1).0
          ≡ ok r)
        (same_input p s t input m b)
        (subst
          (λ mode.
            (base.run_turn (thread_at mode p.logical_key s) input
              (progress (on_sqlite u base) input.progress_sink v).1).0
            ≡ ok r)
          m h),
  )

  from_Turned :
      (p : PreparedMessage) (s : Store) (x : Result MessageResponse × Store)
      (reply : MessageResponse)
      → base.mode ≡ journal
      → Turned u base p s x
      → x.0 ≡ ok reply
      → (r : RunTurnResult) × Answered p (thread_at journal p.logical_key s) reply x.1 r
  from_Turned p s _ reply m (failed e t f k) h = absurd (ground arith)
  from_Turned p s _ reply m (refused _ t m' why k) h = absurd (ground (arith, m, m'))
  from_Turned p s _ reply m (turned r t input v x c now) h =
      let (w, turn) = Ran-in_journal p s input _ r m x refl in
      (
        r,
        (
          w,
          turn,
          ground (arith, h),
          now journal p.logical_key ∙ rw (m, text_eq_refl p.logical_key) refl,
        ),
      )

  -- Let the service stand on the SQLite store, and let its other calls leave the table of bindings alone.
  -- Two messages of a conversation in journal mode, one behind the other: when both are answered, the
  -- second turn runs in the thread that the first one returned.
  pub execute_prepared_message-continues :
      (p q : PreparedMessage) (s : Store) (reply reply' : MessageResponse)
      → base.mode ≡ journal
      → q.logical_key ≡ p.logical_key
      → (execute_prepared_message (on_sqlite u base) p s).0 ≡ ok reply
      → (execute_prepared_message
          (on_sqlite u base)
          q
          (execute_prepared_message (on_sqlite u base) p s).1).0
        ≡ ok reply'
      → (r r' : RunTurnResult) × (v w : Store) × ((base.run_turn
            (thread_at journal p.logical_key s)
            p.input
            v).0
          ≡ ok r)
        × ((base.run_turn r.thread_id q.input w).0 ≡ ok r')
        × (reply ≡ reply_to p.reply_to_id (response_text p r))
        × (reply' ≡ reply_to q.reply_to_id (response_text q r'))
  execute_prepared_message-continues p q s reply reply' m same first_ok second_ok =
      let (r, (v, first_turn, answer_text, left)) =
        from_Turned p s _ reply m (execute_prepared_message-Turned u base apart p s) first_ok in
      let t = (execute_prepared_message (on_sqlite u base) p s).1 in
      let (r', (w, second_turn, answer_text', _)) =
        from_Turned q t _ reply' m (execute_prepared_message-Turned u base apart q t) second_ok in
      (
        r,
        r',
        v,
        w,
        first_turn,
        subst (λ id. (base.run_turn id q.input w).0 ≡ ok r')
            (ap (λ key. thread_at journal key t) same ∙ left) second_turn,
        answer_text,
        answer_text',
      )
