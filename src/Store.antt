-- ===== src/Store.antt =====
-- internal/store/sqlite: the tables and the calls of the database.
pub mod Stamp
pub mod Bindings
pub mod Tasks
pub mod Daily
pub mod Scheduled
pub mod Tests
use claw.Prelude.{ℕ, ◌≡◌, refl, sym, ap, ◌⊎◌, inl, inr, arith, Option, none, some, List, [], ◌∷◌}
use claw.Prelude.Text.{Text, codes}
use claw.Errors.{◌>>◌, or_wrap, wrap, Error, Result, ok, err, Action, wrapped}
use claw.Types.{Time, ThreadBinding, DailySession, Task, ActiveTask}
use claw.ScheduledTasks.{ScheduledTask, ScheduledTaskRun, ScheduledTaskDelivery}

-- The rows of each table, in the order of insertion (migrations/sqlite).
pub record Tables : Type 0 where
  pub thread_bindings : List ThreadBinding
  pub tasks : List Task
  pub active_tasks : List ActiveTask
  pub daily_sessions : List DailySession
  pub scheduled_tasks : List ScheduledTask
  pub scheduled_task_runs : List ScheduledTaskRun
  pub scheduled_task_deliveries : List ScheduledTaskDelivery

-- `now` is what the store's clock reads; `answers` are the errors that the driver gives to the
-- next calls, `none` for a call that goes through, as does every call past the end.
pub record Store : Type 0 where
  pub tables : Tables
  pub now : Time
  pub answers : List (Option Error)

abbrev pub empty_tables : Tables
empty_tables = record {
  thread_bindings = [];
  tasks = [];
  active_tasks = [];
  daily_sessions = [];
  scheduled_tasks = [];
  scheduled_task_runs = [];
  scheduled_task_deliveries = [];
}

-- A store whose driver goes through.
abbrev pub quiet : Tables → Time → Store
quiet t now = record { tables = t; now = now; answers = [] }

abbrev answered : Store → List (Option Error) → Result (Unit {0}) × Store
answered s [] = (ok tt, s)
answered s (none ∷ rest) = (ok tt, record s { answers = rest })
answered s (some e ∷ rest) = (err e, record s { answers = rest })

-- One call of the driver: it goes through or fails.
unfoldable pub driver : Action Store (Unit {0})
driver s = answered s s.answers

-- A read of the tables.
unfoldable pub query {ℓ} : {A : Type ℓ} → (Tables → A) → Action Store A
query f s = (ok (f s.tables), s)

-- A statement that changes the tables.
unfoldable pub exec : (Tables → Tables) → Action Store (Unit {0})
exec f s = (ok tt, record s { tables = f s.tables })

-- s.clock()
unfoldable pub clock : Action Store Time
clock s = (ok s.now, s)

abbrev pub rolled_back {ℓ} : {A : Type ℓ} → Tables → Result A × Store → Result A × Store
rolled_back before (ok a, s) = (ok a, s)
rolled_back before (err e, s) = (err e, record s { tables = before })

-- The deferred `tx.Rollback()`: a transaction that ends in an error leaves the tables as they were.
unfoldable pub transaction {ℓ} : {A : Type ℓ} → Action Store A → Action Store A
transaction body s = rolled_back s.tables (body s)

rolled_back-tables {ℓ} :
    {A : Type ℓ} (before : Tables) (r : Result A × Store) {e : Error} {s' : Store}
    → rolled_back before r ≡ (err e, s')
    → s'.tables ≡ before
rolled_back-tables before (ok a, t) h = absurd (ground arith)
rolled_back-tables before (err x, t) h = sym (ap (λ p. p.1.tables) h)

-- A transaction that fails changes no table.
pub transaction-atomic {ℓ} :
    {A : Type ℓ} (body : Action Store A) (s s' : Store) (e : Error)
    → transaction body s ≡ (err e, s')
    → s'.tables ≡ s.tables
unfolding transaction
transaction-atomic body s s' e h = rolled_back-tables s.tables (body s) h

-- A call of the driver goes through or fails; in both cases the tables and the clock stay.
pub driver-cases :
    (s : Store)
    → ((t : Store) × (driver s ≡ (ok tt, t)) × (t.tables ≡ s.tables) × (t.now ≡ s.now))
      ⊎ ((e : Error) × (t : Store) × (driver s ≡ (err e, t)) × (t.tables ≡ s.tables))
unfolding driver
driver-cases s = answered-cases s.answers
  where
    answered-cases :
        (l : List (Option Error))
        → ((t : Store) × (answered s l ≡ (ok tt, t)) × (t.tables ≡ s.tables) × (t.now ≡ s.now))
          ⊎ ((e : Error) × (t : Store) × (answered s l ≡ (err e, t)) × (t.tables ≡ s.tables))
    answered-cases [] = inl (s, refl, refl, refl)
    answered-cases (none ∷ rest) = inl (record s { answers = rest }, refl, refl, refl)
    answered-cases (some e ∷ rest) = inr (e, record s { answers = rest }, refl, refl)

-- The driver refused the call, with its error in the result, and no table changed.
abbrev pub FailsUnchanged {ℓ} : {A : Type ℓ} → Store → Text → Result A × Store → Type ℓ
FailsUnchanged s t r =
    (e : Error) × ((driver s).0 ≡ err e) × (r.0 ≡ err (wrap t e)) × (r.1.tables ≡ s.tables)

-- To prove something of a call of the driver and what follows it: prove it of what follows, in a
-- state with the same tables and clock, and of the driver's error, in a state with the same tables.
pub driver_rule {ℓ κ} :
    {A : Type ℓ} (P : Result A × Store → Type κ) (t : Text) (k : Action Store A) (s : Store)
    → ((s' : Store) → s'.tables ≡ s.tables → s'.now ≡ s.now → P (k s'))
    → ((e : Error) (s' : Store) → s'.tables ≡ s.tables → P (err (wrap t e), s'))
    → P ((or_wrap t driver >> k) s)
driver_rule P t k s through failed = elim (driver-cases s) [
  | inl (s', e, same, clocked) ↦ rw e (through s' same clocked)
  | inr (x, s', e, same) ↦ rw e (failed x s' same)
]

-- The same for a call at the end.
pub driver_last {κ} :
    (P : Result (Unit {0}) × Store → Type κ) (t : Text) (s : Store)
    → ((s' : Store) → s'.tables ≡ s.tables → s'.now ≡ s.now → P (ok tt, s'))
    → ((e : Error) (s' : Store) → s'.tables ≡ s.tables → P (err (wrap t e), s'))
    → P (or_wrap t driver s)
driver_last P t s through failed = elim (driver-cases s) [
  | inl (s', e, same, clocked) ↦ rw e (through s' same clocked)
  | inr (x, s', e, same) ↦ rw e (failed x s' same)
]

-- The same for a call whose error is not wrapped.
pub driver_bare {ℓ κ} :
    {A : Type ℓ} (P : Result A × Store → Type κ) (k : Action Store A) (s : Store)
    → ((s' : Store) → s'.tables ≡ s.tables → s'.now ≡ s.now → P (k s'))
    → ((e : Error) (s' : Store) → s'.tables ≡ s.tables → P (err e, s'))
    → P ((driver >> k) s)
driver_bare P k s through failed = elim (driver-cases s) [
  | inl (s', e, same, clocked) ↦ rw e (through s' same clocked)
  | inr (x, s', e, same) ↦ rw e (failed x s' same)
]
