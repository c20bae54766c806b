-- ===== src/Schedule/Definitions.antt =====
-- Which definitions of scheduled tasks are accepted.
use claw.Prelude.{
  ◌≤◌, ◌≡◌, ◌≢◌, ◌↔◌, refl, ◌⊎◌, inl, inr, Bool, true, false, Option, [], arith, Bool-cases, ltb,
}
use claw.Prelude.Text.{Text, codes, is_empty, is_empty_iff, trim_space}
use claw.Errors.{Result, ok, err}
use claw.TaskBranch.{Unicode}
use claw.ScheduledTasks.{ScheduledTask}
use claw.Schedule.{
  Location, ParsedSchedule, ScheduledReportTarget, byte_length, parse_scheduled_task_schedule,
  parse_scheduled_report_target, resolve_scheduled_task_report_target,
  validate_scheduled_task_definition, check_own, check_resolved, discarded, both, accepted,
  max_scheduled_task_name_length,
}

abbrev pub IsTarget : Unicode → Text → Type 0
IsTarget u text = (t : ScheduledReportTarget) × (parse_scheduled_report_target u text ≡ ok t)

-- What an accepted definition is.
pub record IsDefinition (u : Unicode) (quote : Text → Text) (task : ScheduledTask)
    (location : Option Location) (default_report_target : Text) : Type 0 where
  pub named : trim_space task.name ≢ []
  pub fits : byte_length (trim_space task.name) ≤ max_scheduled_task_name_length
  pub prompted : trim_space task.prompt ≢ []
  pub scheduled :
      (next : ParsedSchedule) × (parse_scheduled_task_schedule quote task location ≡ ok next)
  pub own : (trim_space task.report_target ≡ []) ⊎ IsTarget u (trim_space task.report_target)
  pub resolved :
      (task.enabled ≡ false)
      ⊎ ((resolve_scheduled_task_report_target task default_report_target ≢ [])
          × IsTarget u (resolve_scheduled_task_report_target task default_report_target))

accepted_iff :
    (context : Text) (r : Result ScheduledReportTarget)
    → (accepted context r ≡ ok tt) ↔ ((t : ScheduledReportTarget) × (r ≡ ok t))
accepted_iff context (ok t) = (λ _. (t, refl), λ _. refl)
accepted_iff context (err e) = (λ h. absurd (ground arith), λ h. absurd (ground (arith, h.1)))

discarded_iff :
    (r : Result ParsedSchedule) → (discarded r ≡ ok tt) ↔ ((next : ParsedSchedule) × (r ≡ ok next))
discarded_iff (ok next) = (λ _. (next, refl), λ _. refl)
discarded_iff (err e) = (λ h. absurd (ground arith), λ h. absurd (ground (arith, h.1)))

both_iff : (a b : Result (Unit {0})) → (both a b ≡ ok tt) ↔ ((a ≡ ok tt) × (b ≡ ok tt))
both_iff (ok tt) b = ground arith
both_iff (err e) b = ground arith

check_own_iff :
    (u : Unicode) (target : Text)
    → (check_own u target ≡ ok tt) ↔ ((target ≡ []) ⊎ IsTarget u target)
check_own_iff u target =
    let e = is_empty_iff target in
    let a = accepted_iff (codes "invalid report_target") (parse_scheduled_report_target u target) in
    elim (Bool-cases (is_empty target)) [
      | inl y ↦ (λ _. inl (e.0 y), λ _. rw y refl)
      | inr n ↦ rw n (λ h. inr (a.0 h), λ h. own n a h)
    ]
  where
    own :
        is_empty target ≡ false
        → (accepted (codes "invalid report_target") (parse_scheduled_report_target u target)
            ≡ ok tt)
          ↔ IsTarget u target
        → (target ≡ []) ⊎ IsTarget u target
        → accepted (codes "invalid report_target") (parse_scheduled_report_target u target) ≡ ok tt
    own n a (inl z) = absurd (ground (arith, is_empty_iff target))
    own n a (inr t) = a.1 t

check_resolved_iff :
    (u : Unicode) (enabled : Bool) (target : Text)
    → (check_resolved u enabled target ≡ ok tt)
      ↔ ((enabled ≡ false) ⊎ ((target ≢ []) × IsTarget u target))
check_resolved_iff u false target = (λ _. inl refl, λ _. refl)
check_resolved_iff u true target =
    let e = is_empty_iff target in
    let a =
      accepted_iff (codes "invalid resolved report target")
        (parse_scheduled_report_target u target) in
    elim (Bool-cases (is_empty target)) [
      | inl y ↦ rw y (λ h. absurd (ground arith), λ h. absurd (ground (arith, e.0 y)))
      | inr n ↦ rw n (λ h. inr (λ z. ground arith, a.0 h), λ h. resolved h a)
    ]
  where
    resolved :
        (true ≡ false) ⊎ ((target ≢ []) × IsTarget u target)
        → (accepted
              (codes "invalid resolved report target")
              (parse_scheduled_report_target u target)
            ≡ ok tt)
          ↔ IsTarget u target
        → accepted (codes "invalid resolved report target") (parse_scheduled_report_target u target)
          ≡ ok tt
    resolved (inl z) a = absurd (ground arith)
    resolved (inr (n, t)) a = a.1 t

module _ (u : Unicode) (quote : Text → Text) where
  -- The checks behind those of the name and the prompt.
  abbrev checks : ScheduledTask → Option Location → Text → Result (Unit {0})
  checks task location default_report_target =
      both (discarded (parse_scheduled_task_schedule quote task location)) (
        both (check_own u (trim_space task.report_target)) (
          check_resolved u task.enabled
            (resolve_scheduled_task_report_target task default_report_target)))

  checks_iff :
      (task : ScheduledTask) (location : Option Location) (default_report_target : Text)
      → trim_space task.name ≢ []
      → byte_length (trim_space task.name) ≤ max_scheduled_task_name_length
      → trim_space task.prompt ≢ []
      → (checks task location default_report_target ≡ ok tt)
        ↔ IsDefinition u quote task location default_report_target
  checks_iff task location target n l p =
      let first = discarded_iff (parse_scheduled_task_schedule quote task location) in
      let own = check_own_iff u (trim_space task.report_target) in
      let rest =
        check_resolved_iff u task.enabled (resolve_scheduled_task_report_target task target) in
      let all = both_iff (discarded (parse_scheduled_task_schedule quote task location)) _ in
      let others = both_iff (check_own u (trim_space task.report_target)) _ in
      (
        λ h. record {
          named = n;
          fits = l;
          prompted = p;
          scheduled = first.0 (all.0 h).0;
          own = own.0 (others.0 (all.0 h).1).0;
          resolved = rest.0 (others.0 (all.0 h).1).1;
        },
        λ d. all.1 (first.1 d.scheduled, others.1 (own.1 d.own, rest.1 d.resolved)),
      )

  -- A definition is accepted exactly when its trimmed name has 1 to 80 bytes (not characters, as the
  -- message to the user says), its prompt is not blank, its schedule parses, the report target that it
  -- names parses, and, where it is enabled, the target that it resolves to is there and parses.
  pub validate_scheduled_task_definition_iff :
      (task : ScheduledTask) (location : Option Location) (default_report_target : Text)
      → (validate_scheduled_task_definition u quote task location default_report_target ≡ ok tt)
        ↔ IsDefinition u quote task location default_report_target
  unfolding validate_scheduled_task_definition
  validate_scheduled_task_definition_iff task location target =
      let empty = is_empty_iff (trim_space task.name) in
      let blank = is_empty_iff (trim_space task.prompt) in
      elim (Bool-cases (is_empty (trim_space task.name))) [
        | inl e ↦ rw e (λ h. absurd (ground arith), λ d. absurd (d.named (empty.0 e)))
        | inr e ↦
            rw e
              (elim (Bool-cases
                (ltb max_scheduled_task_name_length (byte_length (trim_space task.name)))) [
                  | inl l ↦ rw l (λ h. absurd (ground arith), λ d. absurd (ground (arith, d.fits)))
                  | inr l ↦ rw l (elim (Bool-cases (is_empty (trim_space task.prompt))) [
                    | inl p ↦
                        rw p (λ h. absurd (ground arith), λ d. absurd (d.prompted (blank.0 p)))
                    | inr p ↦ rw p (
                        checks_iff task location target (λ z. ground arith) (ground arith)
                          (λ z. ground arith))
                  ])
                ])
      ]
