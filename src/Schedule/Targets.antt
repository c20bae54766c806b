-- ===== src/Schedule/Targets.antt =====
-- Which texts name a report target, and that the target is what its text parses to.
use claw.Prelude.{
  ◌≡◌, ◌≢◌, refl, inl, inr, false, Option, none, some, [], ◌∷◌, ◌++◌, map, arith, Bool-cases,
}
use claw.Prelude.Text.{
  Text, codes, is_empty, is_empty_iff, is_empty-ne, text_eq, trim_space, trim_left, trim_right,
  cons_trimmed, trim_right-append, is_space, IsTrimmed, trim_space-IsTrimmed, IsTrimmed-trim_space,
}
use claw.Errors.{ok}
use claw.TaskBranch.{Unicode, IsUnicode}
use claw.Schedule.{
  ScheduledReportTarget, ScheduledReportTargetKind, channel, dm, kind_text, cut,
  parse_scheduled_report_target, parse_cut, target_of,
}

-- The text of a target: its kind, a colon and its id.
abbrev pub target_text : ScheduledReportTarget → Text
target_text t = kind_text t.kind ++ b':' ∷ t.id

-- An id is trimmed and not empty.
abbrev pub IsTargetId : Text → Type 0
IsTargetId id = IsTrimmed id × (id ≢ [])

module _ (u : Unicode) (laws : IsUnicode u) where
  lower_kind : (k : ScheduledReportTargetKind) → map u.to_lower (kind_text k) ≡ kind_text k
  unfolding codes
  lower_kind channel = ground (
    arith,
    laws.lower b'c',
    laws.lower b'h',
    laws.lower b'a',
    laws.lower b'n',
    laws.lower b'e',
    laws.lower b'l',
  )
  lower_kind dm = ground (arith, laws.lower b'd', laws.lower b'm')

  trim_text :
      (k : ScheduledReportTargetKind) (id : Text)
      → IsTargetId id
      → trim_space (kind_text k ++ b':' ∷ id) ≡ kind_text k ++ b':' ∷ id
  unfolding codes trim_space trim_left is_space
  trim_text channel id (h, n) = trim_right-append (codes "channel" ++ b':' ∷ []) id h.ends n
  trim_text dm id (h, n) = trim_right-append (codes "dm" ++ b':' ∷ []) id h.ends n

  trim_kind : (k : ScheduledReportTargetKind) → trim_space (kind_text k) ≡ kind_text k
  unfolding codes trim_space trim_left trim_right cons_trimmed is_space
  trim_kind channel = refl
  trim_kind dm = refl

  cut_kind :
      (k : ScheduledReportTargetKind) (id : Text)
      → cut b':' (kind_text k ++ b':' ∷ id) ≡ some (kind_text k, id)
  unfolding codes cut
  cut_kind channel id = refl
  cut_kind dm id = refl

  full : (k : ScheduledReportTargetKind) (id : Text) → is_empty (kind_text k ++ b':' ∷ id) ≡ false
  unfolding codes is_empty
  full channel id = refl
  full dm id = refl

  target_of-kind :
      (k : ScheduledReportTargetKind) (id : Text)
      → target_of (kind_text k) id ≡ ok (record { kind = k; id = id })
  unfolding codes text_eq
  target_of-kind channel id = refl
  target_of-kind dm id = refl

  -- The text of a target with a trimmed id parses to the target.
  parse_text :
      (k : ScheduledReportTargetKind) (id : Text)
      → IsTargetId id
      → parse_scheduled_report_target u (kind_text k ++ b':' ∷ id)
        ≡ ok (record { kind = k; id = id })
  unfolding parse_scheduled_report_target
  parse_text k id (h, n) = rw (trim_text k id (h, n)) (
      rw (full k id) (
        rw (cut_kind k id) (
          rw (trim_space-IsTrimmed h)
            (rw (is_empty-ne id n) (rw (trim_kind k) (rw (lower_kind k) (target_of-kind k id)))))))

target_of-id : (kind id : Text) (t : ScheduledReportTarget) → target_of kind id ≡ ok t → t.id ≡ id
target_of-id kind id t h = ground arith

parse_cut-id :
    (u : Unicode) (o : Option (Text × Text)) (t : ScheduledReportTarget)
    → parse_cut u o ≡ ok t
    → IsTargetId t.id
parse_cut-id u none t h = absurd (ground arith)
parse_cut-id u (some (kind, id)) t h = elim (Bool-cases (is_empty (trim_space id))) [
  | inl e ↦ absurd (ground arith)
  | inr e ↦
      let i = target_of-id _ (trim_space id) t (rw e at h) in
      (rw i (IsTrimmed-trim_space id), λ z. ground (arith, is_empty_iff (trim_space id)))
]

pub parse-IsTargetId :
    (u : Unicode) (raw : Text) (t : ScheduledReportTarget)
    → parse_scheduled_report_target u raw ≡ ok t
    → IsTargetId t.id
unfolding parse_scheduled_report_target
parse-IsTargetId u raw t h = elim (Bool-cases (is_empty (trim_space raw))) [
  | inl e ↦ absurd (ground arith)
  | inr e ↦ parse_cut-id u (cut b':' (trim_space raw)) t (rw e at h)
]

-- Let the Unicode tables know the letters a to z.
-- Whatever text is accepted as a report target, the id of the target is trimmed and not empty, and
-- the text `<kind>:<id>` of the target is accepted as the same target.
pub parse-target_text :
    (u : Unicode)
    → IsUnicode u
    → (raw : Text) (t : ScheduledReportTarget) → parse_scheduled_report_target u raw ≡ ok t
    → IsTargetId t.id × (parse_scheduled_report_target u (target_text t) ≡ ok t)
parse-target_text u laws raw t h =
    let i = parse-IsTargetId u raw t h in (i, parse_text u laws t.kind t.id i)
