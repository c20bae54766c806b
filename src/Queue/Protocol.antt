-- ===== src/Queue/Protocol.antt =====
-- How the program drives the coordinator: `HandleMessage` runs an admitted work or leaves it in the
-- queue, whoever ran a work calls `Complete` and runs what that hands over (`drainQueue`), and
-- `StopCurrent` drops the queue. Each step is one call under the mutex; any order of steps may occur.
use claw.Prelude.{
  ℕ, ◌+◌, ◌-◌, ◌≤◌, ◌<◌, ◌≡◌, refl, sym, ap, subst, ◌∙◌, false, inl, inr, Option, none, some, List,
  [], ◌∷◌, ◌++◌, append-nil, append_assoc, arith, length, if◌then◌else◌, Bool-cases,
}
use claw.Prelude.Text.{Text, text_eq, text_eq_refl, text_eq_iff}
use claw.Errors.{Result, ok, err}
use claw.Queue.{
  QueueAdmission, QueuedWork, QueueEntry, QueueCoordinator, new_queue_coordinator, admit, complete,
  drop_queued, max_waiting_messages_per_key,
}
use claw.Queue.Refines.{
  Queues, IsEntry, waiting_of, view, put, IsValid, Admits, start, enqueue, refuse, Completes, idle,
  finish, hand_over, Drops, clear, admit-Refines, complete-Refines, drop_queued-Refines,
  new-IsValid,
}

-- For each key: how many works run, the works that were queued so far, and those that left the
-- queue, to run or dropped, both in order.
pub record System (R : Type 0) : Type 0 where
  pub coordinator : QueueCoordinator R
  pub executing : Text → ℕ
  pub accepted : Text → List (QueuedWork R)
  pub settled : Text → List (QueuedWork R)

unfoldable pub amend {ℓ} : {A : Type ℓ} → Text → A → (Text → A) → Text → A
amend key x f j = if text_eq key j then x else f j

abbrev pub works : {R : Type 0} → Option (List (QueuedWork R)) → List (QueuedWork R)
works none = []
works (some ws) = ws

abbrev oldest : {R : Type 0} → List (QueuedWork R) → List (QueuedWork R)
oldest [] = []
oldest (w ∷ ws) = w ∷ []

abbrev pub new_system : (R : Type 0) → System R
new_system R = record {
  coordinator = new_queue_coordinator;
  executing = λ key. 0;
  accepted = λ key. [];
  settled = λ key. [];
}

module _ {R : Type 0} (key : Text) where
  abbrev arrived : QueuedWork R → System R → Result QueueAdmission × QueueCoordinator R → System R
  arrived work s (ok a, c) =
      if a.execute_now
      then record s { coordinator = c; executing = amend key (s.executing key + 1) s.executing }
      else record s {
        coordinator = c;
        accepted = amend key (s.accepted key ++ work ∷ []) s.accepted;
      }
  arrived work s (err e, c) = record s { coordinator = c }

  -- A message is handled: its work runs at once, waits, or is refused.
  unfoldable pub arrive : QueuedWork R → System R → System R
  arrive work s = arrived work s (admit key work s.coordinator)

  abbrev finished : System R → Option R × QueueCoordinator R → System R
  finished s (none, c) = record s {
    coordinator = c;
    executing = amend key (s.executing key - 1) s.executing;
  }
  finished s (some given, c) = record s {
    coordinator = c;
    settled = amend key (s.settled key ++ oldest (works (view s.coordinator key))) s.settled;
  }

  -- A running work ends: its goroutine runs the next work, or stops.
  unfoldable pub finish_one : System R → System R
  finish_one s = finished s (complete key s.coordinator)

  abbrev stopped : System R → ℕ × List R × QueueCoordinator R → System R
  stopped s (n, fs, c) = record s {
    coordinator = c;
    settled = amend key (s.settled key ++ works (view s.coordinator key)) s.settled;
  }

  -- The stop command drops what waits.
  unfoldable pub stop : System R → System R
  stop s = stopped s (drop_queued key s.coordinator)

pub data Step {R : Type 0} : System R → System R → Type 0 where
  arrives : (s : System R) (key : Text) (work : QueuedWork R) → Step s (arrive key work s)
  finishes : (s : System R) (key : Text) → 0 < s.executing key → Step s (finish_one key s)
  stops : (s : System R) (key : Text) → Step s (stop key s)

pub data Reach {R : Type 0} : System R → Type 0 where
  init : Reach (new_system R)
  next : {s t : System R} → Reach s → Step s t → Reach t

-- An idle key runs nothing; a busy key runs one work; the works that left the queue and those that
-- wait are the works that were queued, in order.
abbrev Tracks :
    {R : Type 0}
    → Option (List (QueuedWork R))
    → ℕ
    → List (QueuedWork R)
    → List (QueuedWork R)
    → Type 0
Tracks none n queued left = (n ≡ 0) × (queued ≡ left)
Tracks (some ws) n queued left = (n ≡ 1) × (queued ≡ left ++ ws)

abbrev pub TracksAt : {R : Type 0} → System R → Text → Type 0
TracksAt s key = Tracks (view s.coordinator key) (s.executing key) (s.accepted key) (s.settled key)

amend_at {ℓ} : {A : Type ℓ} (key : Text) (x : A) (f : Text → A) → amend key x f key ≡ x
unfolding amend
amend_at key x f = rw (text_eq_refl key)

amend_other {ℓ} :
    {A : Type ℓ} (key j : Text) (x : A) (f : Text → A)
    → text_eq key j ≡ false
    → amend key x f j ≡ f j
unfolding amend
amend_other key j x f e = rw e

module _ {R : Type 0} where
  everywhere :
      (key : Text) (s : System R)
      → TracksAt s key
      → ((j : Text) → text_eq key j ≡ false → TracksAt s j)
      → (j : Text) → TracksAt s j
  everywhere key s here there j = elim (Bool-cases (text_eq key j)) [
    | inl e ↦ subst (TracksAt s) ((text_eq_iff key j).0 e) here
    | inr e ↦ there j e
  ]

  -- The invariant of a run.
  pub record Inv (s : System R) : Type 0 where
    pub valid : IsValid s.coordinator
    pub tracks : (key : Text) → TracksAt s key

  put_at : (key : Text) (x : Option (List (QueuedWork R))) (q : Queues R) → put key x q key ≡ x
  unfolding put
  put_at key x q = rw (text_eq_refl key)

  put_other :
      (key j : Text) (x : Option (List (QueuedWork R))) (q : Queues R)
      → text_eq key j ≡ false
      → put key x q j ≡ q j
  unfolding put
  put_other key j x q e = rw e

  arrived-Inv :
      (key : Text) (work : QueuedWork R) (s : System R) (r : Result QueueAdmission)
      (c : QueueCoordinator R)
      → Admits key work (view s.coordinator) (r, view c)
      → IsValid c
      → Inv s
      → Inv (arrived key work s (r, c))
  arrived-Inv key work s r c (start q e) v h = rw (ap (λ x. x.0) e) (record {
    valid = v;
    tracks =
        everywhere key _
          (rw (ap (λ x. x.1) e, put_at, amend_at)
            (let (n, same) = rw q at (h.tracks key) in (omega arith, same ∙ sym (append-nil _))))
          (λ j d.
            rw (ap (λ x. x.1) e, put_other key j _ _ d, amend_other key j _ _ d) (h.tracks j));
  })
  arrived-Inv key work s r c (enqueue ws q lt e) v h = rw (ap (λ x. x.0) e) (record {
    valid = v;
    tracks =
        everywhere key _
          (rw (ap (λ x. x.1) e, put_at, amend_at)
            (let (n, same) = rw q at (h.tracks key) in
              (n, rw same (append_assoc (s.settled key) ws (work ∷ [])))))
          (λ j d.
            rw (ap (λ x. x.1) e, put_other key j _ _ d, amend_other key j _ _ d) (h.tracks j));
  })
  arrived-Inv key work s r c (refuse ws q full e) v h =
      rw (ap (λ x. x.0) e) (record { valid = v; tracks = λ j. rw (ap (λ x. x.1) e) (h.tracks j) })

  finished-Inv :
      (key : Text) (s : System R) (given : Option R) (c : QueueCoordinator R)
      → 0 < s.executing key
      → Completes key (view s.coordinator) (given, view c)
      → IsValid c
      → Inv s
      → Inv (finished key s (given, c))
  finished-Inv key s given c run (idle q e) v h =
      absurd (let (n, same) = rw q at (h.tracks key) in omega arith)
  finished-Inv key s given c run (finish q e) v h = rw (ap (λ x. x.0) e) (record {
    valid = v;
    tracks =
        everywhere key _
          (rw (ap (λ x. x.1) e, put_at, amend_at)
            (let (n, same) = rw q at (h.tracks key) in (omega arith, same ∙ append-nil _)))
          (λ j d.
            rw (ap (λ x. x.1) e, put_other key j _ _ d, amend_other key j _ _ d) (h.tracks j));
  })
  finished-Inv key s given c run (hand_over w ws q e) v h = rw (ap (λ x. x.0) e) (record {
    valid = v;
    tracks =
        everywhere key _
          (rw (ap (λ x. x.1) e, put_at, amend_at, q)
            (let (n, same) = rw q at (h.tracks key) in
              (n, same ∙ sym (append_assoc (s.settled key) (w ∷ []) ws))))
          (λ j d.
            rw (ap (λ x. x.1) e, put_other key j _ _ d, amend_other key j _ _ d) (h.tracks j));
  })

  stopped-Inv :
      (key : Text) (s : System R) (n : ℕ) (fs : List R) (c : QueueCoordinator R)
      → Drops key (view s.coordinator) (n, fs, view c)
      → IsValid c
      → Inv s
      → Inv (stopped key s (n, fs, c))
  stopped-Inv key s n fs c (idle q e) v h = record {
    valid = v;
    tracks =
        everywhere key _
          (rw (ap (λ x. x.2) e, amend_at, q)
            (let (z, same) = rw q at (h.tracks key) in (z, same ∙ sym (append-nil _))))
          (λ j d. rw (ap (λ x. x.2) e, amend_other key j _ _ d) (h.tracks j));
  }
  stopped-Inv key s n fs c (clear ws q e) v h = record {
    valid = v;
    tracks =
        everywhere key _
          (rw (ap (λ x. x.2) e, put_at, amend_at, q)
            (let (z, same) = rw q at (h.tracks key) in (z, same ∙ sym (append-nil _))))
          (λ j d.
            rw (ap (λ x. x.2) e, put_other key j _ _ d, amend_other key j _ _ d) (h.tracks j));
  }

  Step-Inv : {s t : System R} → Step s t → Inv s → Inv t
  unfolding arrive finish_one stop
  Step-Inv (arrives s key work) h =
      let (a, v) = admit-Refines key work s.coordinator h.valid in arrived-Inv key work s _ _ a v h
  Step-Inv (finishes s key run) h =
      let (a, v) = complete-Refines key s.coordinator h.valid in finished-Inv key s _ _ run a v h
  Step-Inv (stops s key) h =
      let (a, v) = drop_queued-Refines key s.coordinator h.valid in stopped-Inv key s _ _ _ a v h

  Reach-Inv : {s : System R} → Reach s → Inv s
  unfolding view new_queue_coordinator
  Reach-Inv init = record { valid = new-IsValid R; tracks = λ key. (refl, refl) }
  Reach-Inv (next r st) = Step-Inv st (Reach-Inv r)

  bounded :
      (e : Option (QueueEntry R))
      → IsEntry e
      → length (works (waiting_of e)) ≤ max_waiting_messages_per_key
  bounded none h = omega arith
  bounded (some e) h = h.1

  -- In every reachable state, for every key: an idle key runs no work and all that was queued has
  -- left the queue; a busy key runs exactly one work, and what was queued is what left the queue
  -- followed by what waits, in order, with at most five waiting.
  pub Reach-serial :
      (s : System R) (key : Text)
      → Reach s
      → TracksAt s key × (length (works (view s.coordinator key)) ≤ max_waiting_messages_per_key)
  unfolding view
  Reach-serial s key r =
      let v = Reach-Inv r in (v.tracks key, bounded (s.coordinator key) (v.valid key))
