-- ===== src/Base/Post.antt =====
-- Rules for the calls of Base/Go: what holds where a call succeeds, and what it keeps.
use mathlib.Core.Path.{◌≡◌, refl}
use mathlib.Core.Bool.{Bool, true, false}
use csi_bizflycloud.Base.Go.{
  Result, ok, err, Exec, pure, fail, fail_if, continue, ◌>>=◌, ◌>>◌, attempt, map_err, wrap_err,
}
use csi_bizflycloud.Base.Tests.{if◌then◌else◌}

-- Where `m` succeeds, its result and the state after it have the property.
pub record Ends {ℓ} {S E A : Type ℓ} (P : A → S → Type ℓ) (m : Exec S E A) : Type ℓ where
  pub at : (s : S) (a : A) → (m s).0 ≡ ok a → P a (m s).1

-- `m` keeps `P`, whether it succeeds or fails.
pub record Keeps {ℓ} {S E A : Type ℓ} (P : S → Type ℓ) (m : Exec S E A) : Type ℓ where
  pub at : (s : S) → P s → P (m s).1

module _ {ℓ} {S E A B : Type ℓ} where
  continue-at :
      (P : B → S → Type ℓ) (r : Result E A) (f : A → Exec S E B)
      → ((a : A) → Ends P (f a))
      → (s : S) (b : B) → (continue r f s).0 ≡ ok b
      → P b (continue r f s).1
  continue-at P (ok a) f h s b e = (h a).at s b e
  continue-at P (err x) f h s b e = cc

  pub Ends-bind :
      (P : B → S → Type ℓ) (m : Exec S E A) (f : A → Exec S E B)
      → ((a : A) → Ends P (f a))
      → Ends P (m >>= f)
  unfolding ◌>>=◌ ◌>>◌ attempt wrap_err
  Ends-bind P m f h = record { at = λ s b e. continue-at P (m s).0 f h (m s).1 b e }

  continue-after :
      (R : A → Type ℓ) (P : B → S → Type ℓ) (r : Result E A) (f : A → Exec S E B)
      → ((a : A) → r ≡ ok a → R a)
      → ((a : A) → R a → Ends P (f a))
      → (s : S) (b : B) → (continue r f s).0 ≡ ok b
      → P b (continue r f s).1
  continue-after R P (ok a) f g h s b e = (h a (g a refl)).at s b e
  continue-after R P (err x) f g h s b e = cc

  -- What the first call answers may be used for the rest.
  pub Ends-after :
      (R : A → Type ℓ) (P : B → S → Type ℓ) (m : Exec S E A) (f : A → Exec S E B)
      → Ends (λ a s. R a) m
      → ((a : A) → R a → Ends P (f a))
      → Ends P (m >>= f)
  unfolding ◌>>=◌
  Ends-after R P m f g h = record {
    at = λ s b e. continue-after R P (m s).0 f (λ a p. g.at s a p) h (m s).1 b e;
  }

  pub Ends-then :
      (P : B → S → Type ℓ) (m : Exec S E A) (k : Exec S E B) → Ends P k → Ends P (m >> k)
  unfolding ◌>>=◌ ◌>>◌ attempt wrap_err
  Ends-then P m k h = record { at = λ s b e. continue-at P (m s).0 (λ _. k) (λ _. h) (m s).1 b e }

  continue-keeps :
      (P : S → Type ℓ) (r : Result E A) (f : A → Exec S E B)
      → ((a : A) → Keeps P (f a))
      → (s : S) → P s
      → P (continue r f s).1
  continue-keeps P (ok a) f h s e = (h a).at s e
  continue-keeps P (err x) f h s e = e

  -- From the state after the first call on.
  pub then-at :
      (P : S → Type ℓ) (m : Exec S E A) (k : Exec S E B)
      → Keeps P k
      → (s : S) → P (m s).1
      → P ((m >> k) s).1
  unfolding ◌>>◌
  then-at P m k i s e = continue-keeps P (m s).0 (λ _. k) (λ _. i) (m s).1 e

  pub bind-at :
      (P : S → Type ℓ) (m : Exec S E A) (f : A → Exec S E B)
      → ((a : A) → Keeps P (f a))
      → (s : S) → P (m s).1
      → P ((m >>= f) s).1
  unfolding ◌>>=◌
  bind-at P m f i s e = continue-keeps P (m s).0 f i (m s).1 e

  pub Keeps-bind :
      (P : S → Type ℓ) (m : Exec S E A) (f : A → Exec S E B)
      → Keeps P m
      → ((a : A) → Keeps P (f a))
      → Keeps P (m >>= f)
  unfolding ◌>>=◌ ◌>>◌ attempt wrap_err
  Keeps-bind P m f k h = record { at = λ s e. continue-keeps P (m s).0 f h (m s).1 (k.at s e) }

  pub Keeps-then :
      (P : S → Type ℓ) (m : Exec S E A) (k : Exec S E B) → Keeps P m → Keeps P k → Keeps P (m >> k)
  unfolding ◌>>=◌ ◌>>◌ attempt wrap_err
  Keeps-then P m k h i = record {
    at = λ s e. continue-keeps P (m s).0 (λ _. k) (λ _. i) (m s).1 (h.at s e);
  }

map_err-ok {ℓ} :
    {E F A : Type ℓ} (g : E → F) (r : Result E A) {a : A} → map_err g r ≡ ok a → r ≡ ok a
map_err-ok g (ok b) h = cc
map_err-ok g (err e) h = cc

module _ {ℓ} {S E F A : Type ℓ} where
  pub Ends-wrap_err :
      (P : A → S → Type ℓ) (g : E → F) (m : Exec S E A) → Ends P m → Ends P (wrap_err g m)
  unfolding ◌>>=◌ ◌>>◌ attempt wrap_err
  Ends-wrap_err P g m h = record { at = λ s a e. h.at s a (map_err-ok g (m s).0 e) }

  pub Keeps-wrap_err :
      (P : S → Type ℓ) (g : E → F) (m : Exec S E A) → Keeps P m → Keeps P (wrap_err g m)
  unfolding ◌>>=◌ ◌>>◌ attempt wrap_err
  Keeps-wrap_err P g m h = record { at = h.at }

  pub Keeps-attempt : (P : S → Type ℓ) (m : Exec S E A) → Keeps P m → Keeps {E = F} P (attempt m)
  unfolding ◌>>=◌ ◌>>◌ attempt wrap_err
  Keeps-attempt P m h = record { at = h.at }

module _ {ℓ} {S E : Type ℓ} (P : S → Type ℓ) where
  pub Keeps-pure : {A : Type ℓ} (a : A) → Keeps {E = E} P (pure a)
  Keeps-pure a = record { at = λ s h. h }

  pub Keeps-fail : {A : Type ℓ} (e : E) → Keeps {A = A} P (fail e)
  Keeps-fail e = record { at = λ s h. h }

  pub Keeps-fail_if : (b : Bool) (e : E) → Keeps P (fail_if b e)
  Keeps-fail_if true e = record { at = λ s h. h }
  Keeps-fail_if false e = record { at = λ s h. h }

pub Keeps-if {ℓ} :
    {S E A : Type ℓ} (P : S → Type ℓ) (b : Bool) (m n : Exec S E A)
    → Keeps P m
    → Keeps P n
    → Keeps P (if b then m else n)
Keeps-if P true m n h k = h
Keeps-if P false m n h k = k

pub ruleset keeps_rules = (
  Keeps-bind, Keeps-then, Keeps-wrap_err, Keeps-attempt, Keeps-pure, Keeps-fail, Keeps-fail_if,
  Keeps-if,
)
