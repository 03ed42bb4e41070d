-- ===== src/Base/Failure.antt =====
-- Rules for the calls of Base/Go: what the errors are.
use mathlib.Core.Path.{◌≡◌, refl, subst}
use csi_bizflycloud.Base.Go.{
  Exec, Result, attempt, continue, err, err-injective, fail, map_err, ok, pure, wrap_err, ◌>>=◌,
  ◌>>◌,
}
use csi_bizflycloud.Base.Post.{Ends}

-- Where `m` fails, the error has the property.
pub record Fails {ℓ} {S E A : Type ℓ} (Q : E → Type ℓ) (m : Exec S E A) : Type ℓ where
  pub at : (s : S) (e : E) → (m s).0 ≡ err e → Q e

module _ {ℓ} {S E A B : Type ℓ} where
  continue-fails :
      (Q : E → Type ℓ) (r : Result E A) (f : A → Exec S E B)
      → ((e : E) → r ≡ err e → Q e)
      → ((a : A) → Fails Q (f a))
      → (s : S) (e : E) → (continue r f s).0 ≡ err e
      → Q e
  continue-fails Q (ok a) f g h s e p = (h a).at s e p
  continue-fails Q (err x) f g h s e p = g e (cc)

  pub Fails-bind :
      (Q : E → Type ℓ) (m : Exec S E A) (f : A → Exec S E B)
      → Fails Q m
      → ((a : A) → Fails Q (f a))
      → Fails Q (m >>= f)
  unfolding ◌>>=◌
  Fails-bind Q m f g h = record {
    at = λ s e p. continue-fails Q (m s).0 f (λ x q. g.at s x q) h (m s).1 e p;
  }

  continue-fails_after :
      (Q : E → Type ℓ) (R : A → Type ℓ) (r : Result E A) (f : A → Exec S E B)
      → ((a : A) → r ≡ ok a → R a)
      → ((e : E) → r ≡ err e → Q e)
      → ((a : A) → R a → Fails Q (f a))
      → (s : S) (e : E) → (continue r f s).0 ≡ err e
      → Q e
  continue-fails_after Q R (ok a) f g i h s e p = (h a (g a refl)).at s e p
  continue-fails_after Q R (err x) f g i h s e p = i e (cc)

  -- What the first call answers may be used for the rest.
  pub Fails-after :
      (Q : E → Type ℓ) (R : A → Type ℓ) (m : Exec S E A) (f : A → Exec S E B)
      → Ends (λ a s. R a) m
      → Fails Q m
      → ((a : A) → R a → Fails Q (f a))
      → Fails Q (m >>= f)
  unfolding ◌>>=◌
  Fails-after Q R m f g i h = record {
    at = λ s e p.
        continue-fails_after Q R (m s).0 f (λ a q. g.at s a q) (λ x q. i.at s x q) h (m s).1 e p;
  }

  pub Fails-then :
      (Q : E → Type ℓ) (m : Exec S E A) (k : Exec S E B) → Fails Q m → Fails Q k → Fails Q (m >> k)
  unfolding ◌>>◌
  Fails-then Q m k g h = record {
    at = λ s e p. continue-fails Q (m s).0 (λ _. k) (λ x q. g.at s x q) (λ _. h) (m s).1 e p;
  }

map_err-fails {ℓ} :
    {E F A : Type ℓ} (Q : F → Type ℓ) (g : E → F) (r : Result E A) (e : F)
    → ((x : E) → Q (g x))
    → map_err g r ≡ err e
    → Q e
map_err-fails Q g (ok a) e h p = cc
map_err-fails Q g (err x) e h p = subst Q (err-injective p) (h x)

module _ {ℓ} {S E F A : Type ℓ} where
  pub Fails-wrap_err :
      (Q : F → Type ℓ) (g : E → F) (m : Exec S E A) → ((x : E) → Q (g x)) → Fails Q (wrap_err g m)
  unfolding wrap_err
  Fails-wrap_err Q g m h = record { at = λ s e p. map_err-fails Q g (m s).0 e h p }

  pub Fails-attempt : (Q : F → Type ℓ) (m : Exec S E A) → Fails Q (attempt m)
  unfolding attempt
  Fails-attempt Q m = record { at = λ s e p. cc }

module _ {ℓ} {S E : Type ℓ} (Q : E → Type ℓ) where
  pub Fails-pure : {A : Type ℓ} (a : A) → Fails {S = S} Q (pure a)
  Fails-pure a = record { at = λ s e p. cc }

  pub Fails-fail : {A : Type ℓ} (x : E) → Q x → Fails {S = S} {A = A} Q (fail x)
  Fails-fail x q = record { at = λ s e p. subst Q (err-injective p) q }

pub ruleset fails_rules =
    (Fails-bind, Fails-then, Fails-wrap_err, Fails-attempt, Fails-pure, Fails-fail)
