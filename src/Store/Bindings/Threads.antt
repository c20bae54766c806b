-- ===== src/Store/Bindings/Threads.antt =====
-- internal/store/sqlite/store.go: the Codex thread of each key, through the calls of the store.
use claw.Prelude.{
  ◌≡◌, refl, sym, ap, inl, inr, Bool, true, ◌&&◌, false, Option, none, some, List, [], ◌∷◌, arith,
  if◌then◌else◌, first, ◌∙◌, Option-cases,
}
use claw.Prelude.Text.{Text, text_eq}
use claw.Errors.{Error, ok, err}
use claw.Types.{Mode, mode_eq, ThreadBinding, Task}
use claw.TaskBranch.{Unicode}
use claw.Store.{Store, driver_rule, clock, exec, query}
use claw.Store.Bindings.{
  delete_thread_binding, delete_thread_binding_lem, has_key, get_thread_binding,
  upsert_thread_binding, binding_of, get_thread_binding_lem, upsert_thread_binding_lem, written,
  stamped,
}
use claw.Store.Tasks.{get_active_task, update_task, get_task, require_row, is_task}

-- The thread of a row, or the empty text.
abbrev pub thread_of : Option ThreadBinding → Text
thread_of none = []
thread_of (some b) = b.codex_thread_id

abbrev pub thread_at : Mode → Text → Store → Text
thread_at mode key s = thread_of (binding_of mode key s)

first-holds {ℓ} :
    {A : Type ℓ} (p : A → Bool) (xs : List A) (x : A) → first p xs ≡ some x → p x ≡ true
unfolding first
first-holds p [] x h = absurd (ground arith)
first-holds p (y ∷ ys) x h = ground (arith, first-holds p ys x)

pub binding_of-key :
    (mode : Mode) (key : Text) (s : Store) (b : ThreadBinding)
    → binding_of mode key s ≡ some b
    → has_key mode key b ≡ true
unfolding binding_of
binding_of-key mode key s b h = first-holds (has_key mode key) s.tables.thread_bindings b h

pub binding_of-tables :
    (mode : Mode) (key : Text) (s t : Store)
    → t.tables.thread_bindings ≡ s.tables.thread_bindings
    → binding_of mode key t ≡ binding_of mode key s
unfolding binding_of
binding_of-tables mode key s t h = ap (first (has_key mode key)) h

pub get-ok :
    (mode : Mode) (key : Text) (s t : Store) (found : Option ThreadBinding)
    → get_thread_binding mode key s ≡ (ok found, t)
    → (found ≡ binding_of mode key s) × (t.tables ≡ s.tables)
get-ok mode key s t found h = elim (get_thread_binding_lem mode key s) [
  | inl (e, _, r, _) ↦ absurd (ground (arith, h, r))
  | inr (r, same) ↦ (ground (arith, h, r), cc)
]

pub get-err :
    (mode : Mode) (key : Text) (s t : Store) (e : Error)
    → get_thread_binding mode key s ≡ (err e, t)
    → t.tables ≡ s.tables
get-err mode key s t e h = elim (get_thread_binding_lem mode key s) [
  | inl (_, _, _, same) ↦ cc
  | inr (_, same) ↦ cc
]

pub upsert-err :
    (b : ThreadBinding) (s t : Store) (e : Error)
    → upsert_thread_binding b s ≡ (err e, t)
    → t.tables ≡ s.tables
upsert-err b s t e h = elim (upsert_thread_binding_lem b s) [
  | inl (_, _, _, same) ↦ cc
  | inr (r, _) ↦ absurd (ground (arith, h, r))
]

thread_of-written :
    (c : Bool) (found : Option ThreadBinding) (b : ThreadBinding)
    → thread_of (if c then some (written found b) else found)
      ≡ (if c then b.codex_thread_id else thread_of found)
thread_of-written true none b = refl
thread_of-written true (some row) b = refl
thread_of-written false found b = refl

pub upsert-ok :
    (b : ThreadBinding) (s t : Store)
    → upsert_thread_binding b s ≡ (ok tt, t)
    → (mode : Mode) (key : Text)
    → thread_at mode key t
      ≡ (if has_key mode key b then b.codex_thread_id else thread_at mode key s)
upsert-ok b s t h mode key = elim (upsert_thread_binding_lem b s) [
  | inl (e, _, r, _) ↦ absurd (ground (arith, h, r))
  | inr (_, r) ↦
      ap (λ x. thread_at mode key x.1) (sym h)
      ∙ (ap thread_of (r mode key)
          ∙ thread_of-written (has_key mode key b) (binding_of mode key s) (stamped s.now b))
]

pub delete-err :
    (mode : Mode) (key : Text) (s t : Store) (e : Error)
    → delete_thread_binding mode key s ≡ (err e, t)
    → t.tables ≡ s.tables
delete-err mode key s t e h = elim (delete_thread_binding_lem mode key s) [
  | inl (_, _, _, same) ↦ cc
  | inr (r, _) ↦ absurd (ground (arith, h, r))
]

pub delete-ok :
    (gone : Mode) (gone_key : Text) (s t : Store)
    → delete_thread_binding gone gone_key s ≡ (ok tt, t)
    → (mode : Mode) (key : Text)
    → binding_of mode key t
      ≡ (if mode_eq mode gone && text_eq key gone_key then none else binding_of mode key s)
delete-ok gone gone_key s t h mode key = elim (delete_thread_binding_lem gone gone_key s) [
  | inl (e, _, r, _) ↦ absurd (ground (arith, h, r))
  | inr (_, r) ↦ ap (λ x. binding_of mode key x.1) (sym h) ∙ r mode key
]

pub get_task-bindings :
    (user_id task_id : Text) (s : Store)
    → (get_task user_id task_id s).1.tables.thread_bindings ≡ s.tables.thread_bindings
unfolding get_task query
get_task-bindings user_id task_id s =
    driver_rule (λ r. r.1.tables.thread_bindings ≡ s.tables.thread_bindings) _ _ s
      (λ t same _. ap (λ x. x.thread_bindings) same) (λ e t same. ap (λ x. x.thread_bindings) same)

pub get_active_task-bindings :
    (user_id : Text) (s : Store)
    → (get_active_task user_id s).1.tables.thread_bindings ≡ s.tables.thread_bindings
unfolding get_active_task query
get_active_task-bindings user_id s =
    driver_rule (λ r. r.1.tables.thread_bindings ≡ s.tables.thread_bindings) _ _ s
      (λ t same _. ap (λ x. x.thread_bindings) same) (λ e t same. ap (λ x. x.thread_bindings) same)

require_row-bindings : (user_id task_id : Text) (s : Store) → (require_row user_id task_id s).1 ≡ s
unfolding require_row
require_row-bindings user_id task_id s =
    elim (Option-cases (first (is_task user_id task_id) s.tables.tasks)) [
      | inl h ↦ rw (h, require_row) refl
      | inr (row, h) ↦ rw (h, require_row) refl
    ]

pub update_task-bindings :
    (u : Unicode) (task : Task) (s : Store)
    → (update_task u task s).1.tables.thread_bindings ≡ s.tables.thread_bindings
unfolding update_task clock exec
update_task-bindings u task s =
    driver_rule (λ r. r.1.tables.thread_bindings ≡ s.tables.thread_bindings) _ _ s
      (λ t same _. rw require_row-bindings (ap (λ x. x.thread_bindings) same))
      (λ e t same. ap (λ x. x.thread_bindings) same)
