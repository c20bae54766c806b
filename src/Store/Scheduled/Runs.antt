-- ===== src/Store/Scheduled/Runs.antt =====
-- The unique keys of the table of runs, and what admissions and changes do to the rows.
use claw.Prelude.{
  ◌≡◌, refl, sym, ap, subst, ◌∙◌, inl, inr, Bool, true, false, Option, none, some, List, [], ◌∷◌,
  ◌++◌, arith, first, Bool-cases,
}
use claw.Prelude.Text.{Text, text_eq, text_eq_iff}
use claw.ScheduledTasks.{ScheduledTaskRun}
use claw.Store.{Tables}
use claw.Store.Daily.Index.{first-append_none}
use claw.Store.Scheduled.{has_run_id, clashes}
use claw.Store.Scheduled.Updates.{changed_run, change_run, overlaps}

-- The keys: no two rows have one id, or one task, due time and attempt.
abbrev pub IsUnique : List ScheduledTaskRun → Type 0
IsUnique [] = Unit
IsUnique (row ∷ rows) = (first (clashes row) rows ≡ none) × IsUnique rows

-- The row of a run.
unfoldable pub run_at : Text → Tables → Option ScheduledTaskRun
run_at id t = first (has_run_id id) t.scheduled_task_runs

text_eq_sym : (s t : Text) → text_eq s t ≡ text_eq t s
text_eq_sym s t = ground (arith, text_eq_iff s t, text_eq_iff t s)

clashes_sym : (a b : ScheduledTaskRun) → clashes a b ≡ clashes b a
clashes_sym a b = ground (
  arith,
  text_eq_sym a.scheduled_run_id b.scheduled_run_id,
  text_eq_sym a.scheduled_task_id b.scheduled_task_id,
)

first-cons_none {ℓ} :
    {A : Type ℓ} (p : A → Bool) (x : A) (xs : List A)
    → first p (x ∷ xs) ≡ none
    → (p x ≡ false) × (first p xs ≡ none)
unfolding first
first-cons_none p x xs h = ground arith

pub first-cons_false {ℓ} :
    {A : Type ℓ} (p : A → Bool) (x : A) (xs : List A) → p x ≡ false → first p (x ∷ xs) ≡ first p xs
unfolding first
first-cons_false p x xs h = rw h refl

pub append-IsUnique :
    (run : ScheduledTaskRun) (rows : List ScheduledTaskRun)
    → IsUnique rows
    → first (clashes run) rows ≡ none
    → IsUnique (rows ++ run ∷ [])
unfolding first
append-IsUnique run [] unique free = (refl, tt)
append-IsUnique run (row ∷ rows) (alone, unique) free =
    let (other, rest) = first-cons_none (clashes run) row rows free in
    let apart : clashes row run ≡ false = clashes_sym row run ∙ other in
    (
      first-append_none (clashes row) rows run alone ∙ rw apart refl,
      append-IsUnique run rows unique rest,
    )

pub change_run_same :
    (run row : ScheduledTaskRun) (rows : List ScheduledTaskRun)
    → has_run_id run.scheduled_run_id row ≡ true
    → change_run run (row ∷ rows) ≡ changed_run run row ∷ change_run run rows
unfolding change_run
change_run_same run row rows h = rw h refl

pub change_run_other :
    (run row : ScheduledTaskRun) (rows : List ScheduledTaskRun)
    → has_run_id run.scheduled_run_id row ≡ false
    → change_run run (row ∷ rows) ≡ row ∷ change_run run rows
unfolding change_run
change_run_other run row rows h = rw h refl

-- A change of a run that no row has changes nothing.
change_run-none :
    (run : ScheduledTaskRun) (rows : List ScheduledTaskRun)
    → first (has_run_id run.scheduled_run_id) rows ≡ none
    → change_run run rows ≡ rows
change_run-none run [] h = unfold change_run in refl
change_run-none run (row ∷ rows) h =
    let (other, rest) = first-cons_none (has_run_id run.scheduled_run_id) row rows h in
    change_run_other run row rows other ∙ ap (λ l. row ∷ l) (change_run-none run rows rest)

pub first-or_none :
    (run : ScheduledTaskRun) (rows : List ScheduledTaskRun)
    → first (clashes run) rows ≡ none
    → first (has_run_id run.scheduled_run_id) rows ≡ none
unfolding first
first-or_none run [] h = refl
first-or_none run (row ∷ rows) h = ground (arith, first-or_none run rows)

-- No row of another id, and none of the occurrence, means none that clashes.
clashes-none :
    (changed : ScheduledTaskRun) (rows : List ScheduledTaskRun)
    → first (has_run_id changed.scheduled_run_id) rows ≡ none
    → first (overlaps changed) rows ≡ none
    → first (clashes changed) rows ≡ none
unfolding first
clashes-none changed [] h o = refl
clashes-none changed (row ∷ rows) h o = ground (arith, clashes-none changed rows)

-- The row that is found in front of rows of other ids.
found-here :
    (run row r : ScheduledTaskRun) (rows : List ScheduledTaskRun)
    → first (clashes r) rows ≡ none
    → has_run_id run.scheduled_run_id r ≡ true
    → first (has_run_id run.scheduled_run_id) (r ∷ rows) ≡ some row
    → (row ≡ r) × (first (has_run_id run.scheduled_run_id) rows ≡ none)
unfolding first
found-here run row r rows alone h found =
    let same : r.scheduled_run_id ≡ run.scheduled_run_id =
      (text_eq_iff r.scheduled_run_id run.scheduled_run_id).0 h in
    (
      ground arith,
      subst (λ id. first (has_run_id id) rows ≡ none) same (first-or_none r rows alone),
    )

module _ (run row : ScheduledTaskRun) where
  -- A row of another id that clashes with none still clashes with none when a row has changed.
  first-change_run :
      (other : ScheduledTaskRun) (rows : List ScheduledTaskRun)
      → IsUnique rows
      → first (has_run_id run.scheduled_run_id) rows ≡ some row
      → clashes other (changed_run run row) ≡ false
      → first (clashes other) rows ≡ none
      → first (clashes other) (change_run run rows) ≡ none
  first-change_run other [] unique found apart free = unfold change_run in free
  first-change_run other (r ∷ rows) (alone, unique) found apart free =
      let (off, rest) = first-cons_none (clashes other) r rows free in
      elim (Bool-cases (has_run_id run.scheduled_run_id r)) [
        | inl h ↦
            let (here, gone) = found-here run row r rows alone h found in
            subst (λ l. first (clashes other) l ≡ none)
              (sym (
                change_run_same run r rows h
                ∙ ap (λ l. changed_run run r ∷ l) (change_run-none run rows gone)))
              (first-cons_false (clashes other) (changed_run run r) rows
                  (subst (λ x. clashes other (changed_run run x) ≡ false) here apart)
                ∙ rest)
        | inr h ↦
            subst (λ l. first (clashes other) l ≡ none) (sym (change_run_other run r rows h))
              (first-cons_false (clashes other) r _ off
                ∙ first-change_run other rows unique
                    (sym (first-cons_false (has_run_id run.scheduled_run_id) r rows h) ∙ found)
                    apart rest)
      ]

  pub change_run-IsUnique :
      (rows : List ScheduledTaskRun)
      → IsUnique rows
      → first (has_run_id run.scheduled_run_id) rows ≡ some row
      → first (overlaps (changed_run run row)) rows ≡ none
      → IsUnique (change_run run rows)
  change_run-IsUnique [] unique found free = unfold change_run in tt
  change_run-IsUnique (r ∷ rows) (alone, unique) found free =
      let (off, rest) = first-cons_none (overlaps (changed_run run row)) r rows free in
      elim (Bool-cases (has_run_id run.scheduled_run_id r)) [
        | inl h ↦
            let (here, gone) = found-here run row r rows alone h found in
            subst IsUnique
              (sym (
                change_run_same run r rows h
                ∙ ap (λ l. changed_run run r ∷ l) (change_run-none run rows gone)))
              (
                subst (λ x. first (clashes (changed_run run x)) rows ≡ none) here
                    (clashes-none (changed_run run row) rows gone rest),
                unique,
              )
        | inr h ↦
            let found' =
              sym (first-cons_false (has_run_id run.scheduled_run_id) r rows h) ∙ found in
            subst IsUnique (sym (change_run_other run r rows h)) (
              first-change_run r rows unique found' (apart r h off) alone,
              change_run-IsUnique rows unique found' rest,
            )
      ]
    where
      apart :
          (r : ScheduledTaskRun)
          → has_run_id run.scheduled_run_id r ≡ false
          → overlaps (changed_run run row) r ≡ false
          → clashes r (changed_run run row) ≡ false
      apart r h off = clashes_sym r (changed_run run row) ∙ ground arith
