-- ===== src/Store/Bindings.antt =====
-- internal/store/sqlite/store.go: the table of thread bindings, keyed by mode and logical key.
pub mod Threads
use claw.Prelude.{
  ◌≡◌, refl, ap, ◌⊎◌, inl, inr, Bool, true, false, not, ◌&&◌, Option, none, some, List, [], ◌∷◌,
  ◌++◌, arith, if◌then◌else◌, first, select,
}
use claw.Prelude.Text.{Text, codes, text_eq, text_eq_iff, text_eq_refl}
use claw.Errors.{Result, ok, err, Action, ◌>>=◌, ◌>>◌, or_wrap, continue_with}
use claw.Types.{Mode, journal, thread, mode_eq, Time, is_zero, ThreadBinding}
use claw.Store.{Tables, Store, driver, query, exec, clock, driver-cases, FailsUnchanged}

-- WHERE mode = ? AND logical_thread_key = ?
abbrev pub has_key : Mode → Text → ThreadBinding → Bool
has_key mode key row = mode_eq row.mode mode && text_eq row.logical_thread_key key

unfoldable pub get_thread_binding : Mode → Text → Action Store (Option ThreadBinding)
get_thread_binding mode key = do
  or_wrap (codes "scan thread binding") driver
  query (λ t. first (has_key mode key) t.thread_bindings)

-- DO UPDATE SET
abbrev overwrite : ThreadBinding → ThreadBinding → ThreadBinding
overwrite row excluded = record row {
  codex_thread_id = excluded.codex_thread_id;
  task_id = excluded.task_id;
  updated_at = excluded.updated_at;
}

-- INSERT … ON CONFLICT(mode, logical_thread_key) DO UPDATE
unfoldable pub upsert_binding : ThreadBinding → List ThreadBinding → List ThreadBinding
upsert_binding b [] = b ∷ []
upsert_binding b (row ∷ rows) =
    if has_key b.mode b.logical_thread_key row
    then overwrite row b ∷ rows
    else row ∷ upsert_binding b rows

abbrev pub stamped : Time → ThreadBinding → ThreadBinding
stamped now b = record b {
  created_at = if is_zero b.created_at then now else b.created_at;
  updated_at = now;
}

unfoldable pub upsert_thread_binding : ThreadBinding → Action Store (Unit {0})
upsert_thread_binding binding = do
  now ← clock
  or_wrap (codes "upsert thread binding") driver
  exec (λ t. record t { thread_bindings = upsert_binding (stamped now binding) t.thread_bindings })

unfoldable pub delete_binding : Mode → Text → List ThreadBinding → List ThreadBinding
delete_binding mode key = select (λ row. not (has_key mode key row))

unfoldable pub delete_thread_binding : Mode → Text → Action Store (Unit {0})
delete_thread_binding mode key = do
  or_wrap (codes "delete thread binding") driver
  exec (λ t. record t { thread_bindings = delete_binding mode key t.thread_bindings })

-- What the table holds for a key.
pub binding_of : Mode → Text → Store → Option ThreadBinding
binding_of mode key s = first (has_key mode key) s.tables.thread_bindings

pub mode_eq_trans : (a b c : Mode) → mode_eq a b ≡ true → mode_eq a c ≡ mode_eq b c
mode_eq_trans journal journal c h = refl
mode_eq_trans journal thread c h = cc
mode_eq_trans thread journal c h = cc
mode_eq_trans thread thread c h = refl

-- What a row turns into, at the key that is written.
abbrev pub written : Option ThreadBinding → ThreadBinding → ThreadBinding
written none b = b
written (some row) b = overwrite row b

first-upsert_binding :
    (mode : Mode) (key : Text) (b : ThreadBinding) (rows : List ThreadBinding)
    → first (has_key mode key) (upsert_binding b rows) ≡ (
        if has_key mode key b
        then some (written (first (has_key mode key) rows) b)
        else first (has_key mode key) rows)
unfolding first upsert_binding
first-upsert_binding mode key b [] = refl
first-upsert_binding mode key b (row ∷ rows) = ground (
  arith,
  text_eq_iff row.logical_thread_key key,
  text_eq_iff b.logical_thread_key key,
  text_eq_iff row.logical_thread_key b.logical_thread_key,
  mode_eq_trans row.mode b.mode mode,
  first-upsert_binding mode key b rows,
)

first-delete_binding :
    (mode mode' : Mode) (key key' : Text) (rows : List ThreadBinding)
    → first (has_key mode key) (delete_binding mode' key' rows)
      ≡ (if mode_eq mode mode' && text_eq key key' then none else first (has_key mode key) rows)
unfolding first delete_binding select
first-delete_binding mode mode' key key' [] = ground arith
first-delete_binding mode mode' key key' (row ∷ rows) = ground (
  arith,
  text_eq_iff row.logical_thread_key key,
  text_eq_iff key key',
  text_eq_iff row.logical_thread_key key',
  mode_eq_trans row.mode mode mode',
  first-delete_binding mode mode' key key' rows,
)

-- Storing a binding fails with the driver's error and changes no table, or it goes through: then its key holds the new
-- thread and task under the time of the clock, a row that was there keeps the time when it was
-- created, and every other key holds what it held.
pub upsert_thread_binding_lem :
    (b : ThreadBinding) (s : Store)
    → FailsUnchanged s (codes "upsert thread binding") (upsert_thread_binding b s)
      ⊎ (((upsert_thread_binding b s).0 ≡ ok tt)
          × ((mode : Mode) (key : Text)
              → binding_of mode key (upsert_thread_binding b s).1 ≡ (
                  if has_key mode key b
                  then some (written (binding_of mode key s) (stamped s.now b))
                  else binding_of mode key s)))
unfolding upsert_thread_binding clock exec binding_of
upsert_thread_binding_lem b s = elim (driver-cases s) [
  | inl (t, e, same, _) ↦
      rw (e, upsert_thread_binding)
        (inr (refl, λ mode key. rw same (first-upsert_binding mode key (stamped s.now b) _)))
  | inr (x, t, e, same) ↦ rw (e, upsert_thread_binding) (inl (x, refl, refl, same))
]

-- Deleting a binding fails with the driver's error and changes no table, or it goes through: then its key holds nothing
-- and every other key holds what it held.
pub delete_thread_binding_lem :
    (mode' : Mode) (key' : Text) (s : Store)
    → FailsUnchanged s (codes "delete thread binding") (delete_thread_binding mode' key' s)
      ⊎ (((delete_thread_binding mode' key' s).0 ≡ ok tt)
          × ((mode : Mode) (key : Text)
              → binding_of mode key (delete_thread_binding mode' key' s).1
                ≡ (if mode_eq mode mode' && text_eq key key' then none else binding_of mode key s)))
unfolding delete_thread_binding exec binding_of
delete_thread_binding_lem mode' key' s = elim (driver-cases s) [
  | inl (t, e, same, _) ↦
      rw (e, delete_thread_binding)
        (inr (refl, λ mode key. rw same (first-delete_binding mode mode' key key' _)))
  | inr (x, t, e, same) ↦ rw (e, delete_thread_binding) (inl (x, refl, refl, same))
]

-- Loading a binding fails with the driver's error, or gives what the table holds for the key; the tables stay.
pub get_thread_binding_lem :
    (mode : Mode) (key : Text) (s : Store)
    → FailsUnchanged s (codes "scan thread binding") (get_thread_binding mode key s)
      ⊎ (((get_thread_binding mode key s).0 ≡ ok (binding_of mode key s))
          × ((get_thread_binding mode key s).1.tables ≡ s.tables))
unfolding get_thread_binding query binding_of
get_thread_binding_lem mode key s = elim (driver-cases s) [
  | inl (t, e, same, _) ↦ rw (e, get_thread_binding) (inr (rw same, same))
  | inr (x, t, e, same) ↦ rw (e, get_thread_binding) (inl (x, refl, refl, same))
]
