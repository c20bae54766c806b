-- ===== src/Scheduler/Due.antt =====
-- The due time that a tick finds: the loop over the schedule ends, with the last one up to now.
use claw.Prelude.{
  ℕ, zero, suc, ◌+◌, ◌≤◌, ◌<◌, ◌≡◌, ◌≢◌, refl, sym, subst, ◌∙◌, not, ◌&&◌, ◌⊎◌, inl, inr, Option,
  none, some, arith, ltb, if◌then◌else◌, Bool-cases,
}
use claw.Types.{Time, is_zero}
use claw.Schedule.{ParsedSchedule}
use claw.Scheduler.{latest_due, due_at}

-- A schedule gives a later time, or the zero time.
abbrev pub Advances : ParsedSchedule → Type 0
Advances next = (t : Time) → (next t ≡ 0) ⊎ (t < next t)

-- The due times of a schedule behind a time.
pub data Fires (next : ParsedSchedule) : Time → Time → Type 0 where
  at_once : {a u : Time} → next a ≡ u → u ≢ 0 → Fires next a u
  later : {a u : Time} → (t : Time) → next a ≡ t → t ≢ 0 → Fires next t u → Fires next a u

-- The last due time behind `a` up to now.
pub record IsLatestDue (next : ParsedSchedule) (a now r : Time) : Type 0 where
  pub fires : Fires next a r
  pub past : r ≤ now
  pub last : (u : Time) → Fires next a u → u ≤ now → u ≤ r

abbrev pub NothingDue : ParsedSchedule → Time → Time → Type 0
NothingDue next a now = (u : Time) → Fires next a u → now < u

module _ (next : ParsedSchedule) (advances : Advances next) (now : Time) where
  pub Fires-lt : (a u : Time) → Fires next a u → a < u
  Fires-lt a u (at_once e n) = ground (arith, advances a)
  Fires-lt a u (later t e n f) = ground (arith, advances a, Fires-lt t u f)

  -- Where the next time is zero or still to come, nothing is due.
  stop : (a : Time) → (next a ≡ 0) ⊎ (now < next a) → NothingDue next a now
  stop a h u (at_once e n) = ground arith
  stop a h u (later t e n f) = ground (arith, Fires-lt t u f)

  -- What the loop finds from a time on, with `latest` from the rounds before.
  abbrev Found : Time → Time → Option Time → Type 0
  Found a latest r =
      ((r ≡ some latest) × NothingDue next a now)
      ⊎ ((t : Time) × (r ≡ some t) × IsLatestDue next a now t)

  step-last :
      (a due t : Time)
      → next a ≡ due
      → due ≤ now
      → IsLatestDue next due now t
      → (u : Time) → Fires next a u
      → u ≤ now
      → u ≤ t
  step-last a due t e past h u (at_once e' n) up = ground (arith, Fires-lt due t h.fires)
  step-last a due t e past h u (later t' e' n f) up =
      h.last u (subst (λ x. Fires next x u) (sym e' ∙ e) f) up

  step-first :
      (a due : Time)
      → next a ≡ due
      → NothingDue next due now
      → (u : Time) → Fires next a u
      → u ≤ now
      → u ≤ due
  step-first a due e nothing u (at_once e' n) up = omega arith
  step-first a due e nothing u (later t e' n f) up =
      absurd (ground (arith, nothing u (subst (λ x. Fires next x u) (sym e' ∙ e) f)))

  step-Found :
      (a latest due : Time) (r : Option Time)
      → next a ≡ due
      → due ≢ 0
      → due ≤ now
      → Found due due r
      → Found a latest r
  step-Found a latest due r e n past (inl (h, nothing)) =
      inr (due, h, record { fires = at_once e n; past = past; last = step-first a due e nothing })
  step-Found a latest due r e n past (inr (t, h, found)) = inr (
    t,
    h,
    record {
      fires = later due e n found.fires;
      past = found.past;
      last = step-last a due t e past found;
    },
  )

  latest_due-Found :
      (fuel : ℕ) (a latest : Time)
      → now + 1 < fuel + a
      → 0 < fuel
      → Found a latest (latest_due fuel next now latest (next a))
  unfolding latest_due
  latest_due-Found zero a latest h p = absurd (omega arith)
  latest_due-Found (suc fuel) a latest h p =
      elim (Bool-cases (not (is_zero (next a)) && not (ltb now (next a)))) [
        | inl e ↦ rw e (
            step-Found a latest (next a) _ refl (λ z. ground arith) (ground arith)
              (latest_due-Found fuel (next a) (next a) (ground (arith, advances a))
                (ground (arith, advances a))))
        | inr e ↦ rw e (inl (refl, stop a (ground arith)))
      ]

-- Let the schedule give later times.
-- The loop over the due times ends within its fuel: nothing is due up to now, and it finds nothing,
-- or it finds the last of the due times behind the anchor up to now.
pub due_at_lem :
    (next : ParsedSchedule)
    → Advances next
    → (now anchor : Time)
    → ((due_at next now anchor ≡ none) × NothingDue next anchor now)
      ⊎ ((t : Time) × (due_at next now anchor ≡ some t) × IsLatestDue next anchor now t)
unfolding due_at
due_at_lem next advances now anchor =
    by_found (latest_due (suc (suc now)) next now 0 (next anchor))
      (latest_due-Found next advances now (suc (suc now)) anchor 0 (omega arith) (omega arith))
  where
    by_found :
        (r : Option Time)
        → Found next advances now anchor 0 r
        → (((elim r [ none ↦ none | some latest ↦ if is_zero latest then none else some latest ])
              ≡ none)
            × NothingDue next anchor now)
          ⊎ ((t : Time) × ((elim r [
            | none ↦ none
            | some latest ↦ if is_zero latest then none else some latest
          ])
                ≡ some t)
              × IsLatestDue next anchor now t)
    by_found r (inl (e, nothing)) = inl (rw e refl, nothing)
    by_found r (inr (t, e, h)) =
        inr (t, rw e (ground (arith, Fires-lt next advances now anchor t h.fires)), h)
