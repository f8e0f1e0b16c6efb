-- ===== src/Base/Keeps.antt =====
-- What a method keeps of its state, whether it succeeds or fails.
use mathlib.Core.Path.{◌≡◌}
use logjet.Base.Results.{Result, ok, err}
use logjet.Base.Exec.{Exec, pure, raise, lift, gets, continue, ◌>>=◌}

-- A record, so that a rule's premise names the action.
pub record Keeps {ℓ} {S A : Type ℓ} {E : Type 0} (P : S → Type ℓ) (m : Exec S E A) : Type ℓ where
  pub after : (s : S) → P s → P (m s).1

module _ {ℓ} {S A : Type ℓ} {E : Type 0} {P : S → Type ℓ} where
  pub Keeps-same : (m : Exec S E A) → ((s : S) → (m s).1 ≡ s) → Keeps P m
  Keeps-same m same = record { after = λ s h. rw (same s) h }

  pub Keeps-pure : (a : A) → Keeps P (pure {E = E} a)
  Keeps-pure a = record { after = λ s h. h }

  pub Keeps-raise : (e : E) → Keeps P (raise {A = A} e)
  Keeps-raise e = record { after = λ s h. h }

  pub Keeps-lift : (r : Result E A) → Keeps P (lift r)
  Keeps-lift r = record { after = λ s h. h }

  pub Keeps-gets : (f : S → A) → Keeps P (gets {E = E} f)
  Keeps-gets f = record { after = λ s h. h }

module _ {ℓ} {S A B : Type ℓ} {E : Type 0} {P : S → Type ℓ} where
  pub continue-keeps :
      (r : Result E A) (f : A → Exec S E B) (s : S)
      → ((a : A) → Keeps P (f a))
      → P s
      → P (continue r f s).1
  continue-keeps (ok a) f s kf h = (kf a).after s h
  continue-keeps (err e) f s kf h = h

  pub Keeps-bind :
      (m : Exec S E A) (f : A → Exec S E B)
      → Keeps P m
      → ((a : A) → Keeps P (f a))
      → Keeps P (m >>= f)
  Keeps-bind m f km kf = record {
    after = λ s h. continue-keeps (m s).0 f (m s).1 kf (km.after s h);
  }
