-- ===== src/Wait/Laws.antt =====
-- What follows from the documentation of `ExponentialBackoff`, for any check.
use csi_bizflycloud.Base.{Bool, ap, arith, inl, inr, subst, suc, true, ℕ, ◌+◌, ◌≡◌, ◌≤◌, ◌⊎◌}
use csi_bizflycloud.Base.Go.{Exec, GoError, Result, err, err_wait_timeout, ok, sentinel}
use csi_bizflycloud.Wait.{Polls, again, done, failed, spent}

module _ {S : Type 0} {check : Exec S GoError Bool} where
  -- An invariant of the check is one of the whole wait.
  pub Polls-keeps :
      {n : ℕ} {s : S} {r : Result GoError (Unit {0}) × S} (P : S → Type 0)
      → ((t : S) → P t → P (check t).1)
      → Polls check n s r
      → P s
      → P r.1
  Polls-keeps P keep spent h = h
  Polls-keeps P keep (done {s = s} t e) h =
      subst P (ap (λ (q : Result GoError Bool × S). q.1) e) (keep s h)
  Polls-keeps P keep (failed {s = s} x t e) h =
      subst P (ap (λ (q : Result GoError Bool × S). q.1) e) (keep s h)
  Polls-keeps P keep (again {s = s} t e more) h =
      Polls-keeps P keep more (subst P (ap (λ (q : Result GoError Bool × S). q.1) e) (keep s h))

  -- A wait that succeeds ends with a check that answered true.
  pub Polls-sound :
      {n : ℕ} {s : S} {r : Result GoError (Unit {0}) × S}
      → Polls check n s r
      → r.0 ≡ ok tt
      → (t : S) × (check t ≡ (ok true, r.1))
  Polls-sound spent h = cc
  Polls-sound (done {s = s} t e) h = (s, e)
  Polls-sound (failed x t e) h = cc
  Polls-sound (again t e more) h = Polls-sound more h

  -- A measure that each check raises by one is raised at most by the number of checks.
  pub Polls-bounded :
      {n : ℕ} {s : S} {r : Result GoError (Unit {0}) × S} (m : S → ℕ)
      → ((t : S) → m (check t).1 ≡ suc (m t))
      → Polls check n s r
      → m r.1 ≤ m s + n
  Polls-bounded m step spent = omega arith
  Polls-bounded m step (done {n = n} {s = s} t e) =
      let h = step s in let k = ap (λ (q : Result GoError Bool × S). m q.1) e in omega arith
  Polls-bounded m step (failed {n = n} {s = s} x t e) =
      let h = step s in let k = ap (λ (q : Result GoError Bool × S). m q.1) e in omega arith
  Polls-bounded m step (again {n = n} {s = s} t e more) =
      let h = step s in
      let k = ap (λ (q : Result GoError Bool × S). m q.1) e in
      omega (arith, Polls-bounded m step more)

  -- A wait that fails otherwise than by a timeout ends with a check that failed so.
  pub Polls-failed :
      {n : ℕ} {s : S} {r : Result GoError (Unit {0}) × S} (e : GoError)
      → Polls check n s r
      → r.0 ≡ err e
      → (e ≡ sentinel err_wait_timeout) ⊎ ((t : S) × (check t ≡ (err e, r.1)))
  Polls-failed e spent h = inl (cc)
  Polls-failed e (done t p) h = cc
  Polls-failed e (failed {s = s} x t p) h = inr (s, cc)
  Polls-failed e (again t p more) h = Polls-failed e more h

  -- Where the first check answers true, it is the only one.
  pub Polls-first :
      {n : ℕ} {s t : S} {r : Result GoError (Unit {0}) × S}
      → check s ≡ (ok true, t)
      → Polls check (suc n) s r
      → r ≡ (ok tt, t)
  Polls-first e (done t p) = cc
  Polls-first e (failed x t p) = cc
  Polls-first e (again t p more) = cc
