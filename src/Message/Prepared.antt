-- ===== src/Message/Prepared.antt =====
-- internal/app/message_service_impl.go: what preparing a message leads to, and what a message that is
-- ready to run takes from its request.
use claw.Prelude.{ℕ, ◌≡◌, refl, subst, ◌∙◌, true, false, Option, inl, inr, Bool-cases, arith}
use claw.Prelude.Text.{Text, codes, is_empty}
use claw.Errors.{
  Error, wrap, Result, ok, err, wrap_rule, is_error, no_active_task, task_override_not_found,
  task_override_closed, task_override_ambiguous,
}
use claw.Types.{Mode, journal, thread, MessageRequest, DailySession}
use claw.Daily.{resolve_active_daily_session}
use claw.TaskOverride.{ParsedTaskOverride, parse_task_override}
use claw.Policy.{build_task_key, resolve_message_key}
use claw.Policy.Keys.{task_id_from_logical_key, task_id_from_logical_key_iff}
use claw.Message.{
  Dependencies, PreparedMessage, Preparation, handled, prepared, resolve_failure, prepare_key,
  prepare_request, prepare_override, prepare_in, prepare_message, base_message, with_task,
  after_resolve, overridden, has_images,
}
use claw.Message.Replies.{
  reply_to, no_active_task_message, override_not_found_message, override_closed_message,
  override_ambiguous_message,
}

module _ {W : Type 0} (d : Dependencies W) where
  -- The message stands for the request: its user, its message, its sink and its cleanup; in thread
  -- mode its key is that of its user and its task.
  abbrev pub IsFor : MessageRequest → Option ℕ → PreparedMessage → Type 0
  IsFor request sink p =
      (p.user_id ≡ request.user_id)
      × (p.reply_to_id ≡ request.message_id)
      × (p.channel_id ≡ request.channel_id)
      × (p.sink ≡ sink)
      × (p.cleanup ≡ request.cleanup)
      × (d.mode ≡ thread → p.logical_key ≡ build_task_key request.user_id p.task_id)

  -- The turn that is asked for: its prompt with its images, and the task that the user named.
  abbrev pub Asks : MessageRequest → PreparedMessage → Type 0
  Asks q p =
      (p.input.prompt ≡ q.content)
      × (p.input.image_paths ≡ q.image_paths)
      × (p.input.progress_sink ≡ q.progress_sink)
      × (p.task_override_name ≡ q.task_override_name)
      × (p.received_at ≡ q.received_at)

  abbrev pub override_of : MessageRequest → ParsedTaskOverride
  override_of request = parse_task_override request.content (has_images d request)

  -- What is asked: the request itself in journal mode, and in thread mode what its override leaves.
  pub data Asked (request : MessageRequest) : MessageRequest → Type 0 where
    as_it_is : d.mode ≡ journal → Asked request request
    by_override :
        (q : MessageRequest)
        → d.mode ≡ thread
        → is_empty (override_of request).reject_message ≡ true
        → q.content ≡ (override_of request).prompt
        → q.task_override_name ≡ (override_of request).task_name
        → (q.user_id ≡ request.user_id)
          × (q.message_id ≡ request.message_id)
          × (q.channel_id ≡ request.channel_id)
          × (q.cleanup ≡ request.cleanup)
          × (q.image_paths ≡ request.image_paths)
          × (q.progress_sink ≡ request.progress_sink)
          × (q.received_at ≡ request.received_at)
        → Asked request q

  -- What the user is told of a message that has no key.
  pub data Told (q : MessageRequest) (e : Error) : Result Preparation → Type 0 where
    inactive :
        is_error e no_active_task ≡ true
        → Told q e (ok (handled (reply_to q.message_id (no_active_task_message d.command_name))))
    not_found :
        is_error e task_override_not_found ≡ true
        → Told q e (
            ok (
              handled (
                reply_to q.message_id
                  (override_not_found_message d.command_name q.task_override_name))))
    closed_task :
        is_error e task_override_closed ≡ true
        → Told q e (
            ok (
              handled (
                reply_to q.message_id
                  (override_closed_message d.command_name q.task_override_name))))
    several :
        is_error e task_override_ambiguous ≡ true
        → Told q e (
            ok (
              handled (
                reply_to q.message_id
                  (override_ambiguous_message d.command_name q.task_override_name))))
    unexpected :
        is_error e no_active_task ≡ false
        → is_error e task_override_not_found ≡ false
        → is_error e task_override_closed ≡ false
        → is_error e task_override_ambiguous ≡ false
        → Told q e (err (wrap (codes "resolve logical thread key") e))

  abbrev key_at : MessageRequest → W → Result Text × W
  key_at q w = resolve_message_key d.store d.local_date d.mode q w

  -- The ways the preparation ends.
  pub data PreparedFor (request : MessageRequest) (sink : Option ℕ) (w : W)
      : Result Preparation × W → Type 0 where
    rejected :
        d.mode ≡ thread
        → is_empty (override_of request).reject_message ≡ false
        → PreparedFor request sink w
            (ok (handled (reply_to request.message_id (override_of request).reject_message)), w)
    unresolved :
        (q : MessageRequest) (e : Error) (v : W) (r : Result Preparation)
        → Asked request q
        → key_at q w ≡ (err e, v)
        → Told q e r
        → PreparedFor request sink w (r, v)
    no_session :
        (q : MessageRequest) (key : Text) (x : Error) (v t : W)
        → Asked request q
        → d.mode ≡ journal
        → key_at q w ≡ (ok key, v)
        → resolve_active_daily_session d.store.sessions key v ≡ (err x, t)
        → PreparedFor request sink w (err (wrap (codes "resolve active journal session") x), t)
    foreign_key :
        (q : MessageRequest) (key : Text) (x : Error) (v : W)
        → Asked request q
        → d.mode ≡ thread
        → key_at q w ≡ (ok key, v)
        → task_id_from_logical_key request.user_id key ≡ err x
        → PreparedFor request sink w (err x, v)
    in_session :
        (q : MessageRequest) (key : Text) (session : DailySession) (p : PreparedMessage) (v t : W)
        → Asked request q
        → d.mode ≡ journal
        → key_at q w ≡ (ok key, v)
        → resolve_active_daily_session d.store.sessions key v ≡ (ok session, t)
        → IsFor request sink p
        → Asks q p
        → p.logical_key ≡ session.logical_thread_key
        → p.daily_session ≡ session
        → PreparedFor request sink w (ok (prepared p), t)
    for_task :
        (q : MessageRequest) (key : Text) (p : PreparedMessage) (v : W)
        → Asked request q
        → d.mode ≡ thread
        → key_at q w ≡ (ok key, v)
        → IsFor request sink p
        → Asks q p
        → p.logical_key ≡ key
        → PreparedFor request sink w (ok (prepared p), v)

  Told-unprepared :
      (q : MessageRequest) (e : Error) (r : Result Preparation) (p : PreparedMessage)
      → Told q e r
      → r ≡ ok (prepared p)
      → ⊥
  Told-unprepared q e _ p (inactive x) h = absurd (ground (arith, h))
  Told-unprepared q e _ p (not_found x) h = absurd (ground (arith, h))
  Told-unprepared q e _ p (closed_task x) h = absurd (ground (arith, h))
  Told-unprepared q e _ p (several x) h = absurd (ground (arith, h))
  Told-unprepared q e _ p (unexpected a b c x) h = absurd (ground (arith, h))

  IsFor-result :
      (request : MessageRequest) (sink : Option ℕ) (w : W) (r : Result Preparation × W)
      (p : PreparedMessage)
      → r.0 ≡ ok (prepared p)
      → PreparedFor request sink w r
      → IsFor request sink p
  IsFor-result request sink w _ p e (rejected m x) = absurd (ground (arith, e))
  IsFor-result request sink w _ p e (unresolved q x v r a k t) =
      absurd (Told-unprepared q x r p t e)
  IsFor-result request sink w _ p e (no_session q key x v t a m k s) = absurd (ground (arith, e))
  IsFor-result request sink w _ p e (foreign_key q key x v a m k s) = absurd (ground (arith, e))
  IsFor-result request sink w _ p e (in_session q key session p' v t a m k s own asks l x) =
      let same : p' ≡ p = ground (arith, e) in subst (IsFor request sink) same own
  IsFor-result request sink w _ p e (for_task q key p' v a m k own asks l) =
      let same : p' ≡ p = ground (arith, e) in subst (IsFor request sink) same own

  -- A message that comes out of the preparation ready to run stands for its request.
  pub PreparedFor-IsFor :
      (request : MessageRequest) (sink : Option ℕ) (w v : W) (p : PreparedMessage)
      → PreparedFor request sink w (ok (prepared p), v)
      → IsFor request sink p
  PreparedFor-IsFor request sink w v p h = IsFor-result request sink w _ p refl h

  resolve_failure-Told : (q : MessageRequest) (e : Error) → Told q e (resolve_failure d q e)
  unfolding resolve_failure
  resolve_failure-Told q e = elim (Bool-cases (is_error e no_active_task)) [
    | inl h ↦ rw h (inactive h)
    | inr a ↦ rw a (elim (Bool-cases (is_error e task_override_not_found)) [
      | inl h ↦ rw h (not_found h)
      | inr b ↦ rw b (elim (Bool-cases (is_error e task_override_closed)) [
        | inl h ↦ rw h (closed_task h)
        | inr c ↦ rw c (elim (Bool-cases (is_error e task_override_ambiguous)) [
          | inl h ↦ rw h (several h)
          | inr x ↦ rw x (unexpected a b c x)
        ])
      ])
    ])
  ]

  -- A message that is asked for by `q` keeps what `q` has of the request.
  module _ (request q : MessageRequest) (sink : Option ℕ) (w : W) (asked : Asked request q)
      (same : (q.user_id ≡ request.user_id)
        × (q.message_id ≡ request.message_id)
        × (q.channel_id ≡ request.channel_id)
        × (q.cleanup ≡ request.cleanup)) where
    with_task-PreparedFor :
        (key : Text) (v : W) (r : Result Text)
        → d.mode ≡ thread
        → key_at q w ≡ (ok key, v)
        → task_id_from_logical_key q.user_id key ≡ r
        → PreparedFor request sink w (with_task d (base_message d q sink key) r v)
    with_task-PreparedFor key v (ok task_id) m k h =
        let (_, _, built) = (task_id_from_logical_key_iff q.user_id task_id key).0 h in
        for_task q key _ v asked m k
          (same.0, same.1, same.2, refl, same.3, λ m'. built ∙ rw (same.0) refl)
          (refl, refl, refl, refl, refl) refl
    with_task-PreparedFor key v (err e) m k h = foreign_key q key e v asked m k (rw (← same.0) h)

    prepare_key-PreparedFor :
        (mode : Mode) (key : Text) (v : W)
        → d.mode ≡ mode
        → key_at q w ≡ (ok key, v)
        → PreparedFor request sink w (prepare_key d mode (base_message d q sink key) v)
    unfolding prepare_key
    prepare_key-PreparedFor journal key v m k =
        wrap_rule (PreparedFor request sink w) (codes "resolve active journal session")
          (resolve_active_daily_session d.store.sessions key) _ v
          (λ session t e.
            in_session q key session _ v t asked m k e
              (same.0, same.1, same.2, refl, same.3, λ m'. absurd (ground (arith, m, m')))
              (refl, refl, refl, refl, refl) refl refl)
          (λ x t e. no_session q key x v t asked m k e)
    prepare_key-PreparedFor thread key v m k =
        with_task-PreparedFor key v (task_id_from_logical_key q.user_id key) m k refl

    after_resolve-PreparedFor :
        (r : Result Text × W)
        → key_at q w ≡ r
        → PreparedFor request sink w (after_resolve d q sink r.0 r.1)
    after_resolve-PreparedFor (ok key, v) k = prepare_key-PreparedFor d.mode key v refl k
    after_resolve-PreparedFor (err e, v) k =
        unresolved q e v (resolve_failure d q e) asked k (resolve_failure-Told q e)

    prepare_request-PreparedFor : PreparedFor request sink w (prepare_request d q sink w)
    unfolding prepare_request
    prepare_request-PreparedFor = after_resolve-PreparedFor (key_at q w) refl

  prepare_in-PreparedFor :
      (mode : Mode) (request : MessageRequest) (sink : Option ℕ) (w : W)
      → d.mode ≡ mode
      → PreparedFor request sink w (prepare_in d mode request sink w)
  unfolding prepare_in prepare_override
  prepare_in-PreparedFor journal request sink w m =
      prepare_request-PreparedFor request request sink w (as_it_is m) (refl, refl, refl, refl)
  prepare_in-PreparedFor thread request sink w m =
      elim (Bool-cases (is_empty (override_of request).reject_message)) [
        | inl h ↦ rw h (
            prepare_request-PreparedFor request (overridden d request (override_of request)) sink w
              (by_override _ m h refl refl (refl, refl, refl, refl, refl, refl, refl))
              (refl, refl, refl, refl))
        | inr h ↦ rw h (rejected m h)
      ]

  -- In thread mode a message whose override is rejected is answered with the rejection, and nothing is
  -- called. Else the key is resolved of what is asked: of the request in journal mode, and in thread
  -- mode of the prompt and the name that the override leaves. When there is no key, the answer is the
  -- one for the reason, or the error for one that is unexpected. In journal mode the session of the
  -- key is resolved, and in thread mode the task is read off the key, which may fail; or the message is
  -- ready to run in that session or for that task, with the prompt that was asked for and with the
  -- user, the message, the channel, the sink and the cleanup of the request.
  pub prepare_message-PreparedFor :
      (request : MessageRequest) (sink : Option ℕ) (w : W)
      → PreparedFor request sink w (prepare_message d request sink w)
  unfolding prepare_message
  prepare_message-PreparedFor request sink w = prepare_in-PreparedFor d.mode request sink w refl
