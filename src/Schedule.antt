-- ===== src/Schedule.antt =====
-- internal/app/scheduled_schedule.go, scheduled_report_target.go: schedules and where their reports
-- go. What cron and the package time make of a text in a time zone is a parameter.
pub mod Targets
pub mod Definitions
pub mod Tests
use claw.Prelude.{
  ℕ, ◌+◌, ◌≡◌, Bool, true, false, not, ◌&&◌, Option, none, some, List, [], ◌∷◌, ◌++◌, map, ltb,
  ◌==◌, if◌then◌else◌,
}
use claw.Prelude.Text.{Text, codes, is_empty, text_eq, trim_space}
use claw.Errors.{Error, message, wrap, Result, ok, err}
use claw.TaskBranch.{Unicode}
use claw.Types.{Time}
use claw.ScheduledTasks.{ScheduledTask, ScheduledTaskScheduleKind, cron, at, other}

-- ParsedSchedule: the method Next, whose zero time means that nothing is due any more.
abbrev pub ParsedSchedule : Type 0
ParsedSchedule = Time → Time

-- What a *time.Location gives: the cron schedules in it, with its times handed over in it, and
-- time.ParseInLocation at a layout and a text.
pub record Location : Type 0 where
  pub parse_cron : Text → Result ParsedSchedule
  pub parse_in_location : Text → Text → Result Time

abbrev pub supported_scheduled_at_layouts : List Text
supported_scheduled_at_layouts = codes "2006-01-02 15:04" ∷ codes "2006-01-02T15:04:05Z07:00" ∷ []

abbrev pub max_scheduled_task_name_length : ℕ
max_scheduled_task_name_length = 80

-- The bytes of a code point in UTF-8, and of a text: Go's len.
abbrev utf8_width : ℕ → ℕ
utf8_width c = if ltb c 0x80 then 1 else if ltb c 0x800 then 2 else if ltb c 0x10000 then 3 else 4

unfoldable pub byte_length : Text → ℕ
byte_length [] = 0
byte_length (c ∷ s) = utf8_width c + byte_length s

-- scheduledAt.Next
abbrev pub scheduled_at : Time → ParsedSchedule
scheduled_at at_time after = if not (ltb after at_time) then 0 else at_time

-- The rest behind the first of a code point, with what stands before it: strings.Cut.
abbrev before : ℕ → Option (Text × Text) → Option (Text × Text)
before c none = none
before c (some (s, t)) = some (c ∷ s, t)

unfoldable pub cut : ℕ → Text → Option (Text × Text)
cut sep [] = none
cut sep (c ∷ s) = let rest = before c (cut sep s) in if c == sep then some ([], s) else rest

module _ (quote : Text → Text) where
  -- The layouts in turn; `last` is the error of the one before.
  unfoldable pub parse_layouts : Location → Text → Text → Error → List Text → Result Time
  parse_layouts location expr trimmed last [] =
      err (wrap (codes "parse at schedule " ++ quote expr) last)
  parse_layouts location expr trimmed last (layout ∷ layouts) =
      elim (location.parse_in_location layout trimmed) [
        | ok parsed ↦ ok parsed
        | err e ↦ parse_layouts location expr trimmed e layouts
      ]

  unfoldable pub parse_scheduled_task_at : Text → Option Location → Result Time
  unfolding parse_layouts
  parse_scheduled_task_at expr none = err (message (codes "schedule timezone must not be nil"))
  parse_scheduled_task_at expr (some location) =
      if is_empty (trim_space expr)
      then err (message (codes "at schedule must not be empty"))
      else parse_layouts location expr (trim_space expr) (message []) supported_scheduled_at_layouts

  abbrev cron_schedule : Result ParsedSchedule → Result ParsedSchedule
  cron_schedule (ok next) = ok next
  cron_schedule (err e) = err (wrap (codes "parse cron schedule") e)

  abbrev at_schedule : Result Time → Result ParsedSchedule
  at_schedule (ok at_time) = ok (scheduled_at at_time)
  at_schedule (err e) = err e

  unfoldable pub parse_kind : Location → Text → ScheduledTaskScheduleKind → Result ParsedSchedule
  unfolding parse_scheduled_task_at
  parse_kind location expr cron =
      if is_empty (trim_space expr)
      then err (message (codes "cron schedule must not be empty"))
      else cron_schedule (location.parse_cron (trim_space expr))
  parse_kind location expr at = at_schedule (parse_scheduled_task_at expr (some location))
  parse_kind location expr (other kind) =
      err (message (codes "unsupported schedule kind " ++ quote kind))

  unfoldable pub parse_scheduled_task_schedule :
      ScheduledTask → Option Location → Result ParsedSchedule
  unfolding parse_kind
  parse_scheduled_task_schedule task none =
      err (message (codes "schedule timezone must not be nil"))
  parse_scheduled_task_schedule task (some location) =
      parse_kind location task.schedule_expr task.schedule_kind

unfoldable pub resolve_scheduled_task_report_target : ScheduledTask → Text → Text
resolve_scheduled_task_report_target task default_report_target =
    if not (is_empty (trim_space task.report_target))
    then trim_space task.report_target
    else trim_space default_report_target

pub data ScheduledReportTargetKind : Type 0 where
  channel dm : ScheduledReportTargetKind

pub record ScheduledReportTarget : Type 0 where
  pub kind : ScheduledReportTargetKind
  pub id : Text

abbrev pub kind_text : ScheduledReportTargetKind → Text
kind_text channel = codes "channel"
kind_text dm = codes "dm"

-- The switch on the normalized kind.
abbrev pub target_of : Text → Text → Result ScheduledReportTarget
target_of kind id =
    if text_eq kind (kind_text channel)
    then ok (record { kind = channel; id = id })
    else if text_eq kind (kind_text dm)
    then ok (record { kind = dm; id = id })
    else err (message (codes "scheduled report target kind must be channel or dm"))

abbrev pub parse_cut : Unicode → Option (Text × Text) → Result ScheduledReportTarget
parse_cut u none =
    err (message (codes "scheduled report target must use channel:<id> or dm:<user_id>"))
parse_cut u (some (kind, id)) =
    if is_empty (trim_space id)
    then err (message (codes "scheduled report target id must not be empty"))
    else target_of (map u.to_lower (trim_space kind)) (trim_space id)

unfoldable pub parse_scheduled_report_target : Unicode → Text → Result ScheduledReportTarget
unfolding cut
parse_scheduled_report_target u raw =
    if is_empty (trim_space raw)
    then err (message (codes "scheduled report target must not be empty"))
    else parse_cut u (cut b':' (trim_space raw))

-- The checks in turn: the first error counts.
abbrev pub both : Result (Unit {0}) → Result (Unit {0}) → Result (Unit {0})
both (ok x) next = next
both (err e) next = err e

abbrev pub discarded : Result ParsedSchedule → Result (Unit {0})
discarded (ok next) = ok tt
discarded (err e) = err e

abbrev pub accepted : Text → Result ScheduledReportTarget → Result (Unit {0})
accepted context (ok t) = ok tt
accepted context (err e) = err (wrap context e)

module _ (u : Unicode) where
  -- The target of the task itself, where it has one.
  abbrev pub check_own : Text → Result (Unit {0})
  check_own target =
      if is_empty target
      then ok tt
      else accepted (codes "invalid report_target") (parse_scheduled_report_target u target)

  -- The target that an enabled task resolves to.
  abbrev pub check_resolved : Bool → Text → Result (Unit {0})
  check_resolved enabled target =
      if not enabled
      then ok tt
      else if is_empty target
      then err (
          message
            (codes "enabled scheduled tasks require report_target or CLAW_SCHEDULED_REPORT_TARGET"))
      else accepted (codes "invalid resolved report target")
          (parse_scheduled_report_target u target)

module _ (u : Unicode) (quote : Text → Text) where
  unfoldable pub validate_scheduled_task_definition :
      ScheduledTask → Option Location → Text → Result (Unit {0})
  unfolding resolve_scheduled_task_report_target
  validate_scheduled_task_definition task location default_report_target =
      let name = trim_space task.name in
      if is_empty name
      then err (message (codes "scheduled task name must not be empty"))
      else if ltb max_scheduled_task_name_length (byte_length name)
      then err (message (codes "scheduled task name must be 80 characters or fewer"))
      else if is_empty (trim_space task.prompt)
      then err (message (codes "scheduled task prompt must not be empty"))
      else both (discarded (parse_scheduled_task_schedule quote task location)) (
          both (check_own u (trim_space task.report_target)) (
            check_resolved u task.enabled
              (resolve_scheduled_task_report_target task default_report_target)))
