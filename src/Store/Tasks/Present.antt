-- ===== src/Store/Tasks/Present.antt =====
-- Rows that a query lists are in the table.
use claw.Prelude.{
  ◌≡◌, refl, sym, ap, ◌∙◌, Bool, true, false, not, inl, inr, none, some, List, [], ◌∷◌, ◌&&◌, arith,
  first, select, Bool-cases,
}
use claw.Prelude.Text.{Text, text_eq, text_eq_iff, text_eq_refl}
use claw.Types.{Task, is_open}
use claw.Store.{Tables}
use claw.Store.Tasks.{insert_by, order_by, open_tasks, is_task}
use claw.Store.Tasks.Closing.{task_of}

module _ {A : Type 0} (p : A → Bool) where
  first-select : (q : A → Bool) (xs : List A) → first p xs ≡ none → first p (select q xs) ≡ none
  unfolding first select
  first-select q [] h = refl
  first-select q (x ∷ xs) h = ground (arith, first-select q xs)

  first-select_apart :
      (q : A → Bool) (xs : List A)
      → ((x : A) → q x ≡ true → p x ≡ false)
      → first p (select q xs) ≡ none
  unfolding first select
  first-select_apart q [] h = refl
  first-select_apart q (x ∷ xs) h = ground (arith, h x, first-select_apart q xs h)

  first-insert_by :
      (lt : A → A → Bool) (x : A) (xs : List A)
      → p x ≡ false
      → first p xs ≡ none
      → first p (insert_by lt x xs) ≡ none
  unfolding first insert_by
  first-insert_by lt x [] h k = rw h refl
  first-insert_by lt x (y ∷ ys) h k = ground (arith, first-insert_by lt x ys h)

  first-order_by :
      (lt : A → A → Bool) (xs : List A) → first p xs ≡ none → first p (order_by lt xs) ≡ none
  unfolding first order_by
  first-order_by lt [] h = refl
  first-order_by lt (x ∷ xs) h = elim (Bool-cases (p x)) [
    | inl e ↦ absurd (ground (arith, e, h))
    | inr e ↦ first-insert_by lt x (order_by lt xs) e (first-order_by lt xs (ground (arith, e, h)))
  ]

  first-holds : (xs : List A) (x : A) → first p xs ≡ some x → p x ≡ true
  unfolding first
  first-holds [] x h = absurd (ground arith)
  first-holds (y ∷ ys) x h = elim (Bool-cases (p y)) [
    | inl e ↦ ground (arith, e, h)
    | inr e ↦ first-holds ys x (ground (arith, e, h))
  ]

-- What no open task of the user satisfies, no listed one does.
listed-holds :
    (p q : Task → Bool) (user_id : Text) (task : Task) (rows : List Task)
    → select q (open_tasks user_id rows) ≡ task ∷ []
    → first p (select (λ row. text_eq row.discord_user_id user_id && is_open row.status) rows)
      ≡ none
    → p task ≡ false
unfolding open_tasks first
listed-holds p q user_id task rows e h = elim (Bool-cases (p task)) [
  | inl k ↦ absurd (ground (arith, k, none_listed))
  | inr k ↦ k
]
  where
    none_listed : first p (task ∷ []) ≡ none
    none_listed = sym (ap (first p) e) ∙ first-select p q _ (first-order_by p _ _ h)

-- A row that is listed as the only open one of some kind has its key in the table.
pub open_tasks-present :
    (q : Task → Bool) (user_id : Text) (task : Task) (t : Tables)
    → select q (open_tasks user_id t.tasks) ≡ task ∷ []
    → task_of user_id task.task_id t ≡ none
    → ⊥
unfolding task_of
open_tasks-present q user_id task t e gone = ground (
  arith,
  text_eq_refl task.task_id,
  listed-holds (is_task user_id task.task_id) q user_id task t.tasks e
      (first-select (is_task user_id task.task_id) _ t.tasks gone),
  listed-holds (λ row. not (text_eq row.discord_user_id user_id)) q user_id task t.tasks e
      (first-select_apart _ _ t.tasks (λ row h. ground (arith, h))),
)

-- The row of a key has the key.
pub task_of-task_id :
    (user_id task_id : Text) (task : Task) (t : Tables)
    → task_of user_id task_id t ≡ some task
    → task.task_id ≡ task_id
unfolding task_of
task_of-task_id user_id task_id task t e =
    ground (
      arith,
      first-holds (is_task user_id task_id) t.tasks task e,
      text_eq_iff task.task_id task_id,
    )
