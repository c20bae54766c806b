-- ===== src/Schedule/Tests.antt =====
-- Definitions and targets at concrete inputs, with a cron that fires every minute.
use claw.Prelude.{◌+◌, ◌*◌, ◌/◌, ◌≡◌, ◌↔◌, refl, true, none, some, [], ◌++◌}
use claw.Prelude.Text.{Text, codes}
use claw.Errors.{message, ok, err}
use claw.TaskBranch.Tests.{ascii, ascii-IsUnicode}
use claw.Store.Stamp.{second}
use claw.ScheduledTasks.{ScheduledTask, cron}
use claw.Schedule.{
  Location, ParsedSchedule, ScheduledReportTarget, channel, parse_scheduled_report_target,
  validate_scheduled_task_definition,
}
use claw.Schedule.Targets.{IsTargetId, target_text, parse-target_text}
use claw.Schedule.Definitions.{IsDefinition, validate_scheduled_task_definition_iff}

abbrev pub every_minute : ParsedSchedule
every_minute after = (after / (60 * second) + 1) * (60 * second)

abbrev pub utc : Location
utc = record {
  parse_cron = λ expr. ok every_minute;
  parse_in_location = λ layout expr. err (message (codes "no time"));
}

abbrev pub plain_quote : Text → Text
plain_quote t = codes "\"" ++ t ++ codes "\""

abbrev pub nightly : ScheduledTask
nightly = record {
  scheduled_task_id = codes "s1";
  name = codes "nightly";
  schedule_kind = cron;
  schedule_expr = codes "* * * * *";
  prompt = codes "report";
  enabled = true;
  report_target = codes "channel:42";
  created_at = 600 * second;
  updated_at = 600 * second;
  disabled_at = none;
}

accepts : validate_scheduled_task_definition ascii plain_quote nightly (some utc) [] ≡ ok tt
unfolding validate_scheduled_task_definition claw.Prelude.Text.is_empty claw.Prelude.Text.trim_space
    codes claw.Schedule.byte_length claw.Schedule.parse_scheduled_task_schedule
    parse_scheduled_report_target claw.Prelude.Text.text_eq
accepts = refl

abbrev pub target_42 : ScheduledReportTarget
target_42 = record { kind = channel; id = codes "42" }

spaced : parse_scheduled_report_target ascii (codes " Channel: 42 ") ≡ ok target_42
unfolding parse_scheduled_report_target claw.Prelude.Text.is_empty claw.Prelude.Text.trim_space
    codes claw.Prelude.Text.text_eq
spaced = refl

parse-target_text_example :
    IsTargetId target_42.id
    × (parse_scheduled_report_target ascii (target_text target_42) ≡ ok target_42)
parse-target_text_example =
    parse-target_text ascii ascii-IsUnicode (codes " Channel: 42 ") target_42 spaced

validate_scheduled_task_definition_iff_example :
    (validate_scheduled_task_definition ascii plain_quote nightly (some utc) [] ≡ ok tt)
    ↔ IsDefinition ascii plain_quote nightly (some utc) []
validate_scheduled_task_definition_iff_example =
    validate_scheduled_task_definition_iff ascii plain_quote nightly (some utc) []
