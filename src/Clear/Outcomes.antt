-- ===== src/Clear/Outcomes.antt =====
-- internal/app/daily_command_service.go: what the clear command does, over the SQLite store.
use claw.Prelude.{◌≡◌, refl, sym, ap, subst, ◌∙◌, inl, inr, true, false, some, arith, Bool-cases}
use claw.Prelude.Text.{Text, codes, text_eq}
use claw.Errors.{Error, Result, ok, err, wrap, wrapped, wrap_rule, succeed, continue_with}
use claw.Types.{Time, journal, MessageResponse, DailySession}
use claw.TaskBranch.{Unicode}
use claw.Queue.{QueueCoordinator, snapshot}
use claw.Daily.{resolve_active_daily_session, activation_clear}
use claw.Store.{Tables, Store, quiet}
use claw.Store.Daily.{session_store, next_session, rotate_daily_session}
use claw.Store.Daily.Index.{IsSingle, append-IsSingle}
use claw.Store.Daily.Sessions.{active_on, RotatedOrUnchanged, rotate_daily_session_lem}
use claw.Store.Daily.Resolution.{
  Resolved, found, created, refused, created_session, resolve_active_daily_session_lem,
}
use claw.Services.{sqlite_store}
use claw.Message.Replies.{build_execution_key}
use claw.Clear.{busy_response, cleared_response, is_busy, clear, clear_active, rotated}

same_next :
    {now now' : Time} {date reason : Text} {a b : DailySession}
    → now ≡ now'
    → a ≡ b
    → next_session now date reason a ≡ next_session now' date reason b
same_next {now' = now'} {date = date} {reason = reason} {a = a} p q =
    ap (λ x. next_session x date reason a) p ∙ ap (next_session now' date reason) q

-- The session that the message finds or creates is the active one, and one session a day is active.
Resolved-active :
    (date : Text) (t : Tables) (now : Time) (r : Result DailySession × Store)
    (active : DailySession)
    → IsSingle t.daily_sessions
    → Resolved date t now r
    → r.0 ≡ ok active
    → (active_on date r.1.tables ≡ some active)
      × IsSingle r.1.tables.daily_sessions
      × (r.1.now ≡ now)
unfolding active_on
Resolved-active date t now _ active single (found a h) e = (ground (arith, h, e), single, refl)
Resolved-active date t now _ active single (created h is) e = (
  ground (arith, is, e),
  append-IsSingle (created_session date t now) t.daily_sessions single h,
  refl,
)
Resolved-active date t now _ active single (refused x row h taken) e = absurd (ground arith)

module _ {R : Type 0} (u : Unicode) (command_name : Text) (local_date : Time → Text)
    (c : QueueCoordinator R) where
  -- The ways the command ends, from the state that resolving the session leaves.
  pub data Cleared (date : Text) (now : Time) (s : Result DailySession × Store)
      : Result MessageResponse × Store → Type 0 where
    unresolved :
        (e : Error)
        → s.0 ≡ err e
        → Cleared date now s (err (wrap (codes "resolve active journal session") e), s.1)
    busy :
        (active : DailySession)
        → s.0 ≡ ok active
        → is_busy (snapshot (build_execution_key journal active.logical_thread_key) c) ≡ true
        → Cleared date now s (ok (busy_response command_name), s.1)
    failed :
        (e : Error) (t : Store)
        → t.tables ≡ s.1.tables
        → Cleared date now s (err (wrap (codes "rotate journal session") e), t)
    fresh :
        (active : DailySession) (t : Store)
        → s.0 ≡ ok active
        → is_busy (snapshot (build_execution_key journal active.logical_thread_key) c) ≡ false
        → active_on date t.tables ≡ some (next_session now date activation_clear active)
        → ((day : Text)
            → text_eq date day ≡ false
            → active_on day t.tables ≡ active_on day s.1.tables)
        → IsSingle t.tables.daily_sessions
        → Cleared date now s
            (ok (cleared_response (next_session now date activation_clear active)), t)

  rotated_ok :
      (date : Text) (now : Time) (active next : DailySession) (s t : Store)
      → is_busy (snapshot (build_execution_key journal active.logical_thread_key) c) ≡ false
      → active_on date s.tables ≡ some active
      → s.now ≡ now
      → rotate_daily_session date activation_clear s ≡ (ok next, t)
      → RotatedOrUnchanged date activation_clear s (rotate_daily_session date activation_clear s)
      → Cleared date now (ok active, s) (ok (cleared_response next), t)
  rotated_ok date now active next s t idle is clock e (inl (x, lost, _)) =
      absurd (ground (arith, e, lost))
  rotated_ok date now active next s t idle is clock e
        (inr (a, was, done, now_active, others, single)) =
      let same : a ≡ active = ground (arith, was, is) in
      let next_is : next ≡ next_session now date activation_clear active =
        ground (arith, e, done) ∙ same_next clock same in
      rw next_is (
        fresh active t refl idle
          (ap (λ x. active_on date x.1.tables) (sym e)
            ∙ (now_active ∙ ap some (same_next clock same)))
          (λ day other. ap (λ x. active_on day x.1.tables) (sym e) ∙ others day other)
          (subst (λ x. IsSingle x.1.tables.daily_sessions) e single))

  rotated_err :
      (date : Text) (now : Time) (active : DailySession) (x : Error) (s t : Store)
      → rotate_daily_session date activation_clear s ≡ (err x, t)
      → RotatedOrUnchanged date activation_clear s (rotate_daily_session date activation_clear s)
      → Cleared date now (ok active, s) (err (wrap (codes "rotate journal session") x), t)
  rotated_err date now active x s t e (inl (_, _, kept)) =
      failed x t (ap (λ y. y.1.tables) (sym e) ∙ kept)
  rotated_err date now active x s t e (inr (a, was, done, _, _, _)) =
      absurd (ground (arith, e, done))

  rotated-Cleared :
      (date : Text) (now : Time) (active : DailySession) (s : Store)
      → is_busy (snapshot (build_execution_key journal active.logical_thread_key) c) ≡ false
      → active_on date s.tables ≡ some active
      → s.now ≡ now
      → RotatedOrUnchanged date activation_clear s (rotate_daily_session date activation_clear s)
      → Cleared date now (ok active, s) (rotated (sqlite_store u) date s)
  rotated-Cleared date now active s idle is clock r =
      wrap_rule (Cleared date now (ok active, s)) (codes "rotate journal session")
        (rotate_daily_session date activation_clear) (λ next. succeed (cleared_response next)) s
        (λ next t e. rotated_ok date now active next s t idle is clock e r)
        (λ x t e. rotated_err date now active x s t e r)

  clear_active-Cleared :
      (date : Text) (now : Time) (active : DailySession) (s : Store)
      → active_on date s.tables ≡ some active
      → IsSingle s.tables.daily_sessions
      → s.now ≡ now
      → Cleared date now (ok active, s) (clear_active (sqlite_store u) command_name c date active s)
  unfolding clear_active
  clear_active-Cleared date now active s is single clock =
      elim (Bool-cases
        (is_busy (snapshot (build_execution_key journal active.logical_thread_key) c))) [
          | inl h ↦ rw h (busy active refl h)
          | inr h ↦ rw h (
              rotated-Cleared date now active s h is clock
                (rotate_daily_session_lem date activation_clear s single))
        ]

  -- While the driver goes through up to the session and one session a day is active, the clear command
  -- fails and tells where, or it tells that the conversation of the day is busy and rotates nothing, or
  -- no turn runs and no message waits under its key, and the next generation becomes the active session
  -- of the day, while the other days keep theirs.
  pub clear-Cleared :
      (received_at : Time) (t : Tables) (now : Time)
      → IsSingle t.daily_sessions
      → Cleared
          (local_date received_at)
          now
          (resolve_active_daily_session session_store (local_date received_at) (quiet t now))
          (clear (sqlite_store u) command_name c local_date received_at (quiet t now))
  unfolding clear
  clear-Cleared received_at t now single =
      by_session _ (resolve_active_daily_session_lem (local_date received_at) t now)
    where
      by_session :
          (s : Result DailySession × Store)
          → Resolved (local_date received_at) t now s
          → Cleared (local_date received_at) now s (
              continue_with
                (clear_active (sqlite_store u) command_name c (local_date received_at))
                (wrapped (codes "resolve active journal session") s))
      by_session (err e, s) r = unresolved e refl
      by_session (ok active, s) r =
          let (is, single', clock) =
            Resolved-active (local_date received_at) t now (ok active, s) active single r refl in
          clear_active-Cleared (local_date received_at) now active s is single' clock
