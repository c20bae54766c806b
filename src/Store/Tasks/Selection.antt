-- ===== src/Store/Tasks/Selection.antt =====
-- Rows that a test keeps, through the order of a query.
use claw.Prelude.{
  ◌≡◌, ◌≢◌, refl, sym, ◌∙◌, inl, inr, Bool, true, false, List, [], ◌∷◌, ◌++◌, select, arith,
  Bool-cases,
}
use claw.Store.Tasks.{insert_by, order_by}

module _ {A : Type 0} (lt : A → A → Bool) (p : A → Bool) where
  select-insert_by_other :
      (x : A) (ys : List A) → p x ≡ false → select p (insert_by lt x ys) ≡ select p ys
  unfolding select insert_by
  select-insert_by_other x [] h = rw h refl
  select-insert_by_other x (y ∷ ys) h = ground (arith, select-insert_by_other x ys h)

  select-insert_by_only :
      (x : A) (ys : List A) → p x ≡ true → select p ys ≡ [] → select p (insert_by lt x ys) ≡ x ∷ []
  unfolding select insert_by
  select-insert_by_only x [] h e = rw h refl
  select-insert_by_only x (y ∷ ys) h e = ground (arith, select-insert_by_only x ys h)

  insert_by-kept : (x : A) (ys : List A) → p x ≡ true → select p (insert_by lt x ys) ≢ []
  unfolding select insert_by
  insert_by-kept x [] h e = ground arith
  insert_by-kept x (y ∷ ys) h e = ground (arith, insert_by-kept x ys h)

  -- Nothing is kept of the sorted rows exactly if nothing is kept of the rows.
  pub select-order_by-none : (xs : List A) → select p (order_by lt xs) ≡ [] → select p xs ≡ []
  unfolding order_by select
  select-order_by-none [] e = refl
  select-order_by-none (x ∷ xs) e = elim (Bool-cases (p x)) [
    | inl h ↦ absurd (insert_by-kept x (order_by lt xs) h e)
    | inr h ↦ rw h (select-order_by-none xs (sym (select-insert_by_other x (order_by lt xs) h) ∙ e))
  ]

  pub select-order_by-append :
      (xs : List A) (x : A)
      → p x ≡ true
      → select p xs ≡ []
      → select p (order_by lt (xs ++ x ∷ [])) ≡ x ∷ []
  unfolding order_by select insert_by
  select-order_by-append [] x h e = rw h refl
  select-order_by-append (y ∷ ys) x h e = elim (Bool-cases (p y)) [
    | inl k ↦ absurd (ground (arith, k, e))
    | inr k ↦
        select-insert_by_other y (order_by lt (ys ++ x ∷ [])) k
        ∙ select-order_by-append ys x h (ground (arith, k, e))
  ]
