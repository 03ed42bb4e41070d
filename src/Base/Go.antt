-- ===== src/Base/Go.antt =====
-- Go's errors, gRPC statuses, and the calls that thread a state and may fail.
use mathlib.Core.Path.{◌≡◌, refl}
use mathlib.Core.Logic.{◌⊎◌, inl, inr}
use Prim.Native.String.{String}
use mathlib.Core.Bool.{Bool, true, false}
use mathlib.Core.Option.{Option, none, some}

-- The error values that the program compares with: gobizfly.ErrNotFound, wait.ErrWaitTimeout.
pub data Sentinel : Type 0 where
  err_not_found err_wait_timeout : Sentinel

-- An `error`: a sentinel itself, an error that wraps one (`%w`), or one that wraps none. The texts
-- are format strings; what is put into them is left out, since no code reads it.
pub data GoError : Type 0 where
  sentinel : Sentinel → GoError
  wraps : Sentinel → String → GoError
  plain : String → GoError

abbrev pub same_sentinel : Sentinel → Sentinel → Bool
same_sentinel err_not_found err_not_found = true
same_sentinel err_wait_timeout err_wait_timeout = true
same_sentinel err_not_found err_wait_timeout = false
same_sentinel err_wait_timeout err_not_found = false

-- `errors.Is(err, target)`
abbrev pub errors_is : GoError → Sentinel → Bool
errors_is (sentinel a) t = same_sentinel a t
errors_is (wraps a text) t = same_sentinel a t
errors_is (plain text) t = false

-- `err == target`
abbrev pub error_eq : GoError → Sentinel → Bool
error_eq (sentinel a) t = same_sentinel a t
error_eq (wraps a text) t = false
error_eq (plain text) t = false

-- google.golang.org/grpc/codes, the ones in use.
pub data Code : Type 0 where
  invalid_argument not_found already_exists failed_precondition aborted out_of_range : Code
  unimplemented internal unavailable : Code

-- A status message: a format string, or the text of an error (`err.Error()`).
pub data Message : Type 0 where
  format : String → Message
  error_text : GoError → Message

-- How a handler fails: with a gRPC status, with an error passed on as it came, or by a run-time
-- panic.
pub data Failure : Type 0 where
  status : Code → Message → Failure
  raw : GoError → Failure
  panicked : Failure

pub data Result {ℓ} (E A : Type ℓ) : Type ℓ where
  ok : A → Result E A
  err : E → Result E A

-- A call over a state: what it returns, and the state after it.
abbrev pub Exec {ℓ} : Type ℓ → Type ℓ → Type ℓ → Type ℓ
Exec S E A = S → Result E A × S

-- The error of a call, if there is one.
abbrev pub error_of {ℓ} : {E A : Type ℓ} → Result E A → Option E
error_of (ok a) = none
error_of (err e) = some e

module _ {ℓ} {S E : Type ℓ} where
  abbrev pub pure : {A : Type ℓ} → A → Exec S E A
  pure a s = (ok a, s)

  -- `return nil, err`
  abbrev pub fail : {A : Type ℓ} → E → Exec S E A
  fail e s = (err e, s)

  abbrev pub continue : {A B : Type ℓ} → Result E A → (A → Exec S E B) → Exec S E B
  continue (ok a) f s = f a s
  continue (err e) f s = (err e, s)

  infixl 5 ◌>>=◌ ◌>>◌
  unfoldable pub ◌>>=◌ : {A B : Type ℓ} → Exec S E A → (A → Exec S E B) → Exec S E B
  ◌>>=◌ m f s = continue (m s).0 f (m s).1

  unfoldable pub ◌>>◌ : {A B : Type ℓ} → Exec S E A → Exec S E B → Exec S E B
  ◌>>◌ m k s = continue (m s).0 (λ _. k) (m s).1

  -- `if b { return nil, e }`
  abbrev pub fail_if : Bool → E → Exec S E (Unit {ℓ})
  fail_if true e = fail e
  fail_if false e = pure tt

-- `x, err := m`, where the code looks at `err` itself.
unfoldable pub attempt {ℓ} : {S E F A : Type ℓ} → Exec S E A → Exec S F (Result E A)
attempt m s = (ok (m s).0, (m s).1)

abbrev pub map_err {ℓ} : {E F A : Type ℓ} → (E → F) → Result E A → Result F A
map_err f (ok a) = ok a
map_err f (err e) = err (f e)

-- `x, err := m; if err != nil { return nil, f(err) }`
unfoldable pub wrap_err {ℓ} : {S E F A : Type ℓ} → (E → F) → Exec S E A → Exec S F A
wrap_err f m s = (map_err f (m s).0, (m s).1)

-- `status.Error(code, text)`, whatever the error was.
abbrev pub as_status : Code → String → GoError → Failure
as_status c text e = status c (format text)

-- `status.Error(code, err.Error())`
abbrev pub as_text : Code → GoError → Failure
as_text c e = status c (error_text e)

-- To compute with the calls: a proof that runs a handler names this alone.
unfoldable pub calls : Unit {0}
unfolding ◌>>=◌ ◌>>◌ attempt wrap_err
calls = tt

pub ok-injective {ℓ} : {E A : Type ℓ} {a b : A} → ◌≡◌ {A = Result E A} (ok a) (ok b) → a ≡ b
ok-injective h = cc

pub err-injective {ℓ} : {E A : Type ℓ} {a b : E} → ◌≡◌ {A = Result E A} (err a) (err b) → a ≡ b
err-injective h = cc

pub Result-cases {ℓ} :
    {E A : Type ℓ} (r : Result E A) → ((a : A) × (r ≡ ok a)) ⊎ ((e : E) × (r ≡ err e))
Result-cases (ok a) = inl (a, refl)
Result-cases (err e) = inr (e, refl)
