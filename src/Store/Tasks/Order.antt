-- ===== src/Store/Tasks/Order.antt =====
-- The order in which `ListOpenTasks` lists tasks.
use mathlib.Core.List.{Perm}
use mathlib.Core.List.Perm
use claw.Prelude.{
  ◌/◌, ◌%◌, ◌<◌, ◌≡◌, refl, inl, inr, Bool, true, false, ◌&&◌, List, [], ◌∷◌, arith, select,
  Bool-cases,
}
use claw.Prelude.Text.{Text, text_eq}
use claw.Errors.{ok}
use claw.Types.{Time, Task, is_open}
use claw.Store.{Tables, driver, query, quiet}
use claw.Store.Stamp.{second, text_lt, suffix, stamp_lt, stamp_lt-fraction}
use claw.Store.Tasks.{insert_by, order_by, open_tasks, list_open_tasks}

module _ {ℓ} {A : Type ℓ} (lt : A → A → Bool) where
  insert_by-perm : (x : A) (xs : List A) → Perm (insert_by lt x xs) (x ∷ xs)
  unfolding insert_by
  insert_by-perm x [] = Perm.refl (x ∷ [])
  insert_by-perm x (y ∷ ys) = elim (Bool-cases (lt y x)) [
    | inl e ↦ rw e (Perm.trans (Perm.cons y (insert_by-perm x ys)) (Perm.swap x y ys))
    | inr e ↦ rw e (Perm.refl (x ∷ y ∷ ys))
  ]

  pub order_by-perm : (xs : List A) → Perm (order_by lt xs) xs
  unfolding order_by
  order_by-perm [] = Perm.refl []
  order_by-perm (x ∷ xs) =
      Perm.trans (insert_by-perm x (order_by lt xs)) (Perm.cons x (order_by-perm xs))

  -- No row stands strictly before the row in front of it.
  abbrev pub IsOrdered : List A → Type 0
  IsOrdered [] = Unit
  IsOrdered (x ∷ []) = Unit
  IsOrdered (x ∷ y ∷ ys) = (lt y x ≡ false) × IsOrdered (y ∷ ys)

  module _ (asymm : (x y : A) → lt x y ≡ true → lt y x ≡ false) where
    insert_by-IsOrdered : (x : A) (xs : List A) → IsOrdered xs → IsOrdered (insert_by lt x xs)
    unfolding insert_by
    insert_by-IsOrdered x [] h = tt
    insert_by-IsOrdered x (y ∷ []) h = ground (arith, asymm y x)
    insert_by-IsOrdered x (y ∷ z ∷ ys) h =
        ground (arith, asymm y x, asymm z x, insert_by-IsOrdered x (z ∷ ys) h.1)

    pub order_by-IsOrdered : (xs : List A) → IsOrdered (order_by lt xs)
    unfolding order_by
    order_by-IsOrdered [] = tt
    order_by-IsOrdered (x ∷ xs) = insert_by-IsOrdered x (order_by lt xs) (order_by-IsOrdered xs)

text_lt-asymm : (s t : Text) → text_lt s t ≡ true → text_lt t s ≡ false
unfolding text_lt
text_lt-asymm [] [] h = cc
text_lt-asymm [] (d ∷ t) h = refl
text_lt-asymm (c ∷ s) [] h = cc
text_lt-asymm (c ∷ s) (d ∷ t) h = ground (arith, text_lt-asymm s t)

pub stamp_lt-asymm : (a b : Time) → stamp_lt a b ≡ true → stamp_lt b a ≡ false
unfolding stamp_lt
stamp_lt-asymm a b h = ground (arith, text_lt-asymm (suffix (a % second)) (suffix (b % second)))

abbrev pub is_open_of : Text → Task → Bool
is_open_of user_id row = text_eq row.discord_user_id user_id && is_open row.status

abbrev pub older : Task → Task → Bool
older a b = stamp_lt a.created_at b.created_at

-- While the driver goes through, the list is the user's open tasks, each as often as the table
-- holds it, in an order in which no timestamp is written strictly before the one in front of it.
pub list_open_tasks_lem :
    (user_id : Text) (t : Tables) (now : Time)
    → (rows : List Task) × ((list_open_tasks user_id (quiet t now)).0 ≡ ok rows)
      × Perm rows (select (is_open_of user_id) t.tasks)
      × IsOrdered older rows
unfolding list_open_tasks driver query open_tasks
list_open_tasks_lem user_id t now = (
  open_tasks user_id t.tasks,
  refl,
  order_by-perm older _,
  order_by-IsOrdered older (λ a b. stamp_lt-asymm a.created_at b.created_at)
      (select (is_open_of user_id) t.tasks),
)

-- While the driver goes through and two open tasks of one user are the only rows, the first created on a
-- whole second and the other later in that second, the later one is listed first.
pub list_open_tasks-misordered :
    (user_id : Text) (a b : Task) (t : Tables) (now : Time)
    → is_open_of user_id a ≡ true
    → is_open_of user_id b ≡ true
    → a.created_at / second ≡ b.created_at / second
    → a.created_at % second ≡ 0
    → 0 < b.created_at % second
    → t.tasks ≡ a ∷ b ∷ []
    → (list_open_tasks user_id (quiet t now)).0 ≡ ok (b ∷ a ∷ [])
unfolding list_open_tasks driver query open_tasks insert_by select
list_open_tasks-misordered user_id a b t now oa ob same whole later rows =
    rw (rows, oa, ob, (stamp_lt-fraction a.created_at b.created_at same whole later).0)
