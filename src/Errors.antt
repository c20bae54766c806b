-- ===== src/Errors.antt =====
-- Go's `error` values, results that may hold one, and code that threads a state through fallible
-- calls (internal/app/errors.go, and the sentinels of database/sql and context that are tested).
use claw.Prelude.{ℕ, ◌≡◌, refl, Bool, false, ◌||◌, ◌==◌, ◌∷◌, ◌++◌, Option, none, some}
use claw.Prelude.Text.{Text, codes, decimal}

-- The sentinel errors that `errors.Is` looks for.
pub data Sentinel : Type 0 where
  no_active_task execution_queue_full task_override_not_found task_override_closed : Sentinel
  task_override_ambiguous no_rows canceled deadline_exceeded not_exist : Sentinel

-- `wrap t e` is `fmt.Errorf` with `%w` at `e` and the text `t` in front of it, `noted` with a text
-- behind it. `exit` is an *exec.ExitError with its code, `joined` what errors.Join gives.
pub data Error : Type 0 where
  sentinel : Sentinel → Error
  message : Text → Error
  exit : ℕ → Error
  wrap : Text → Error → Error
  noted : Error → Text → Error
  joined : Error → Error → Error

abbrev rank : Sentinel → ℕ
rank no_active_task = 0
rank execution_queue_full = 1
rank task_override_not_found = 2
rank task_override_closed = 3
rank task_override_ambiguous = 4
rank no_rows = 5
rank canceled = 6
rank deadline_exceeded = 7
rank not_exist = 8

-- errors.Is(err, target), along the chain of `%w`.
abbrev pub is_error : Error → Sentinel → Bool
is_error (sentinel s) target = rank s == rank target
is_error (message t) target = false
is_error (exit n) target = false
is_error (wrap t e) target = is_error e target
is_error (noted e t) target = is_error e target
is_error (joined e f) target = is_error e target || is_error f target

-- The texts of the sentinels, and `err.Error()`.
abbrev pub sentinel_text : Sentinel → Text
sentinel_text no_active_task = codes "no active task selected"
sentinel_text execution_queue_full = codes "execution queue full for thread key"
sentinel_text task_override_not_found = codes "task override target not found"
sentinel_text task_override_closed = codes "task override target is closed"
sentinel_text task_override_ambiguous = codes "task override target is ambiguous"
sentinel_text no_rows = codes "sql: no rows in result set"
sentinel_text canceled = codes "context canceled"
sentinel_text deadline_exceeded = codes "context deadline exceeded"
sentinel_text not_exist = codes "file does not exist"

unfoldable pub error_text : Error → Text
error_text (sentinel s) = sentinel_text s
error_text (message t) = t
error_text (exit n) = codes "exit status " ++ decimal n
error_text (wrap t e) = t ++ (codes ": " ++ error_text e)
error_text (noted e t) = error_text e ++ (codes ": " ++ t)
error_text (joined e f) = error_text e ++ (10 ∷ error_text f)

abbrev or_code : Option ℕ → Option ℕ → Option ℕ
or_code (some n) other = some n
or_code none other = other

-- errors.As at an *exec.ExitError, with its code.
abbrev pub exit_code : Error → Option ℕ
exit_code (sentinel s) = none
exit_code (message t) = none
exit_code (exit n) = some n
exit_code (wrap t e) = exit_code e
exit_code (noted e t) = exit_code e
exit_code (joined e f) = or_code (exit_code e) (exit_code f)

pub data Result {ℓ} (A : Type ℓ) : Type ℓ where
  ok : A → Result A
  err : Error → Result A

-- A call that reads and changes a state, and may fail; what it changed before it failed stays.
abbrev pub Action {ℓ κ} : Type ℓ → Type κ → Type (ℓ ⊔ κ)
Action W A = W → Result A × W

module _ {ℓ κ μ} {W : Type ℓ} {A : Type κ} {B : Type μ} where
  infixl 5 ◌>>=◌ ◌>>◌
  abbrev pub continue_with : (A → Action W B) → Result A × W → Result B × W
  continue_with f (ok a, w) = f a w
  continue_with f (err e, w) = (err e, w)

  abbrev pub ◌>>=◌ : Action W A → (A → Action W B) → Action W B
  ◌>>=◌ m f w = continue_with f (m w)

  abbrev pub ◌>>◌ : Action W A → Action W B → Action W B
  ◌>>◌ m k w = continue_with (λ _. k) (m w)

module _ {ℓ κ} {W : Type ℓ} {A : Type κ} where
  abbrev pub succeed : A → Action W A
  succeed a w = (ok a, w)

  abbrev pub fail : Error → Action W A
  fail e w = (err e, w)

  abbrev pub of_result : Result A → Action W A
  of_result r w = (r, w)

  abbrev pub wrapped : Text → Result A × W → Result A × W
  wrapped t (ok a, w) = (ok a, w)
  wrapped t (err e, w) = (err (wrap t e), w)

  -- `if err != nil { return ..., fmt.Errorf("...: %w", err) }` behind a call.
  abbrev pub or_wrap : Text → Action W A → Action W A
  or_wrap t m w = wrapped t (m w)

  abbrev pub result_of : Result A × W → Action W (Result A)
  result_of (r, w') w = (ok r, w')

  -- A call whose error the caller looks at.
  abbrev pub attempt : Action W A → Action W (Result A)
  attempt m w = result_of (m w) w

-- What `m >>= k` does is told by what `m` does.
pub bind_rule {ℓ κ μ ν} :
    {W : Type ℓ} {A : Type κ} {B : Type μ} (P : Result B × W → Type ν) (m : Action W A)
    (k : A → Action W B) (w : W)
    → ((a : A) (v : W) → m w ≡ (ok a, v) → P (k a v))
    → ((e : Error) (v : W) → m w ≡ (err e, v) → P (err e, v))
    → P ((m >>= k) w)
bind_rule P m k w went failed = by_result (m w) went failed
  where
    by_result :
        (r : Result _ × _)
        → ((a : _) (v : _) → r ≡ (ok a, v) → P (k a v))
        → ((e : Error) (v : _) → r ≡ (err e, v) → P (err e, v))
        → P (continue_with k r)
    by_result (ok a, v) went failed = went a v refl
    by_result (err e, v) went failed = failed e v refl

-- The same for a call whose error is wrapped.
pub wrap_rule {ℓ κ μ ν} :
    {W : Type ℓ} {A : Type κ} {B : Type μ} (P : Result B × W → Type ν) (t : Text) (m : Action W A)
    (k : A → Action W B) (w : W)
    → ((a : A) (v : W) → m w ≡ (ok a, v) → P (k a v))
    → ((e : Error) (v : W) → m w ≡ (err e, v) → P (err (wrap t e), v))
    → P ((or_wrap t m >>= k) w)
wrap_rule P t m k w went failed = by_result (m w) went failed
  where
    by_result :
        (r : Result _ × _)
        → ((a : _) (v : _) → r ≡ (ok a, v) → P (k a v))
        → ((e : Error) (v : _) → r ≡ (err e, v) → P (err (wrap t e), v))
        → P (continue_with k (wrapped t r))
    by_result (ok a, v) went failed = went a v refl
    by_result (err e, v) went failed = failed e v refl
