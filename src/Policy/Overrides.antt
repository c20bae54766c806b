-- ===== src/Policy/Overrides.antt =====
-- Which task a message with an override goes to, over the SQLite store.
use mathlib.Core.List.{Mem, mem-cons_self, mem-cons_of_mem}
use claw.Prelude.{
  ◌≡◌, ◌≢◌, refl, Bool, true, false, ◌&&◌, none, some, List, [], ◌∷◌, arith, All, first, select,
  Option-cases, Bool-cases, inl, inr,
}
use claw.Prelude.Text.{Text, text_eq, is_empty-ne}
use claw.Errors.{
  sentinel, noted, task_override_not_found, task_override_closed, task_override_ambiguous, Result,
  ok, err,
}
use claw.TaskBranch.{Unicode}
use claw.Types.{Time, thread, MessageRequest, Task, is_closed}
use claw.Store.{Tables, driver, query, quiet}
use claw.Store.Tasks.{open_tasks, list_open_tasks, has_closed_task_with_name}
use claw.Services.{sqlite_store}
use claw.Policy.{build_task_key, closed_or_missing, choose_match, resolve_message_key}

abbrev pub is_closed_of : Text → Text → Task → Bool
is_closed_of user_id name row =
    text_eq row.discord_user_id user_id && (text_eq row.task_name name && is_closed row.status)

abbrev pub named : Text → Text → Tables → List Task
named user_id name t = select (λ task. text_eq task.task_name name) (open_tasks user_id t.tasks)

-- The outcomes for a user and a name.
pub data Resolves (user_id name : Text) (t : Tables) (r : Result Text) : Type 0 where
  unique :
      (task : Task)
      → named user_id name t ≡ task ∷ []
      → r ≡ ok (build_task_key user_id task.task_id)
      → Resolves user_id name t r
  closed :
      (row : Task)
      → named user_id name t ≡ []
      → Mem row t.tasks
      → is_closed_of user_id name row ≡ true
      → r ≡ err (noted (sentinel task_override_closed) name)
      → Resolves user_id name t r
  missing :
      named user_id name t ≡ []
      → All (λ row. is_closed_of user_id name row ≡ false) t.tasks
      → r ≡ err (noted (sentinel task_override_not_found) name)
      → Resolves user_id name t r
  ambiguous :
      (a b : Task) (rest : List Task)
      → named user_id name t ≡ a ∷ b ∷ rest
      → r ≡ err (noted (sentinel task_override_ambiguous) name)
      → Resolves user_id name t r

first-some :
    {A : Type 0} (p : A → Bool) (xs : List A) (x : A)
    → first p xs ≡ some x
    → Mem x xs × (p x ≡ true)
unfolding first
first-some p [] x h = absurd (ground arith)
first-some p (y ∷ ys) x h = elim (Bool-cases (p y)) [
  | inl e ↦ let same : y ≡ x = ground arith in rw (← same) (mem-cons_self, e)
  | inr e ↦ let (m, q) = first-some p ys x (ground arith) in (mem-cons_of_mem y m, q)
]

first-none :
    {A : Type 0} (p : A → Bool) (xs : List A) → first p xs ≡ none → All (λ x. p x ≡ false) xs
unfolding first
first-none p [] h = tt
first-none p (y ∷ ys) h = ground (arith, first-none p ys)

choose_match-Resolves :
    (u : Unicode) (user_id name : Text) (t : Tables) (now : Time) (tasks : List Task)
    → named user_id name t ≡ tasks
    → Resolves user_id name t (choose_match (sqlite_store u) user_id name tasks (quiet t now)).0
unfolding choose_match closed_or_missing has_closed_task_with_name driver query
choose_match-Resolves u user_id name t now [] e =
    elim (Option-cases (first (is_closed_of user_id name) t.tasks)) [
      | inl h ↦ missing e (first-none _ t.tasks h) (rw h)
      | inr (row, h) ↦ let (m, q) = first-some _ t.tasks row h in closed row e m q (rw h)
    ]
choose_match-Resolves u user_id name t now (task ∷ []) e = unique task e refl
choose_match-Resolves u user_id name t now (a ∷ b ∷ rest) e = ambiguous a b rest e refl

-- While the driver goes through, a message with an override in thread mode resolves to the key of
-- the only open task of the user with that name, or to an error that tells whether several have
-- it, none has it and some closed task had it, or no task has it.
pub resolve_message_key-Resolves :
    (u : Unicode) (local_date : Time → Text) (request : MessageRequest) (t : Tables) (now : Time)
    → request.task_override_name ≢ []
    → Resolves request.user_id request.task_override_name t
        (resolve_message_key (sqlite_store u) local_date thread request (quiet t now)).0
unfolding resolve_message_key list_open_tasks driver query
resolve_message_key-Resolves u local_date request t now n =
    rw (is_empty-ne request.task_override_name n)
      (choose_match-Resolves u request.user_id request.task_override_name t now _ refl)
