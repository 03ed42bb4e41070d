-- ===== src/Wait.antt =====
-- k8s.io/apimachinery/pkg/util/wait, which the repository does not hold: `ExponentialBackoff` is a
-- parameter, and what its documentation says of it is a relation.
pub mod Laws
use csi_bizflycloud.Base.{ℕ, zero, suc, ◌≡◌, Bool, true, false}
use csi_bizflycloud.Base.Go.{GoError, sentinel, err_wait_timeout, Result, ok, err, Exec}

-- wait.Backoff: the first delay in seconds, the factor in tenths, the number of checks.
pub record Backoff : Type 0 where
  pub duration : ℕ
  pub factor : ℕ
  pub steps : ℕ

-- "It repeatedly checks the condition and then sleeps. It stops and returns as soon as the
-- condition check returns true or an error, or `Steps` checks of the condition have been done. In
-- the first case the returned error is what the condition function returned. In all other cases
-- ErrWaitTimeout is returned." What others do during the sleeps shows in the next check's answer.
pub data Polls {S : Type 0} (check : Exec S GoError Bool)
    : ℕ → S → Result GoError (Unit {0}) × S → Type 0 where
  spent : {s : S} → Polls check zero s (err (sentinel err_wait_timeout), s)
  done : {n : ℕ} {s : S} (t : S) → check s ≡ (ok true, t) → Polls check (suc n) s (ok tt, t)
  failed :
      {n : ℕ} {s : S} (e : GoError) (t : S)
      → check s ≡ (err e, t)
      → Polls check (suc n) s (err e, t)
  again :
      {n : ℕ} {s : S} {r : Result GoError (Unit {0}) × S} (t : S)
      → check s ≡ (ok false, t)
      → Polls check n t r
      → Polls check (suc n) s r

pub record Wait : Type 1 where
  pub exponential_backoff : (S : Type 0) → Backoff → Exec S GoError Bool → Exec S GoError (Unit {0})
  pub polls :
      (S : Type 0) (b : Backoff) (check : Exec S GoError Bool) (s : S)
      → Polls check b.steps s (exponential_backoff S b check s)
