-- ===== src/Base/Answers.antt =====
-- What a handler answers: whether it is there, and does not crash.
use mathlib.Core.Path.{◌≡◌, refl}
use mathlib.Core.Logic.{◌≢◌}
use mathlib.Core.Bool.{Bool, true, false}
use mathlib.Core.Option.{Option, some}
use csi_bizflycloud.Base.Go.{
  Failure, Result, aborted, already_exists, err, error_of, failed_precondition, internal,
  invalid_argument, not_found, ok, out_of_range, panicked, raw, status, unavailable, unimplemented,
}

-- A failure that is no panic, and does not say that the handler is missing.
abbrev pub IsHandled : Failure → Type 0
IsHandled panicked = ⊥
IsHandled (status unimplemented m) = ⊥
IsHandled (status c m) = Unit
IsHandled (raw e) = Unit

-- `status.Code(err) == codes.Unimplemented`
abbrev pub is_unimplemented : Option Failure → Bool
is_unimplemented (some (status unimplemented m)) = true
is_unimplemented _ = false

-- The answer of a handler that serves.
abbrev pub IsServed : Option Failure → Type 0
IsServed a = (is_unimplemented a ≡ false) × (a ≢ some panicked)

pub handled-IsServed :
    {A : Type 0} (r : Result Failure A)
    → ((e : Failure) → r ≡ err e → IsHandled e)
    → IsServed (error_of r)
handled-IsServed (ok a) h = (refl, λ e. cc)
handled-IsServed (err (raw x)) h = (refl, λ e. cc)
handled-IsServed (err panicked) h = elim (h panicked refl) [ ]
handled-IsServed (err (status invalid_argument m)) h = (refl, λ e. cc)
handled-IsServed (err (status not_found m)) h = (refl, λ e. cc)
handled-IsServed (err (status already_exists m)) h = (refl, λ e. cc)
handled-IsServed (err (status failed_precondition m)) h = (refl, λ e. cc)
handled-IsServed (err (status aborted m)) h = (refl, λ e. cc)
handled-IsServed (err (status out_of_range m)) h = (refl, λ e. cc)
handled-IsServed (err (status unimplemented m)) h = elim (h _ refl) [ ]
handled-IsServed (err (status internal m)) h = (refl, λ e. cc)
handled-IsServed (err (status unavailable m)) h = (refl, λ e. cc)
