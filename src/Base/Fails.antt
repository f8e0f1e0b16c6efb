-- ===== src/Base/Fails.antt =====
-- What a failing method keeps of its state.
use mathlib.Core.Path.{◌≡◌}
use logjet.Base.Results.{Result, ok, err}
use logjet.Base.Exec.{Exec, modify, continue, ◌>>=◌}
use logjet.Base.Keeps.{Keeps}

pub record FailsKeeping {ℓ} {S A : Type ℓ} {E : Type 0} (P : S → Type ℓ) (m : Exec S E A)
    : Type ℓ where
  pub after : (s : S) (e : E) → (m s).0 ≡ err e → P s → P (m s).1

module _ {ℓ} {S : Type ℓ} {E : Type 0} {P : S → Type ℓ} where
  pub Keeps-FailsKeeping : {A : Type ℓ} (m : Exec S E A) → Keeps P m → FailsKeeping P m
  Keeps-FailsKeeping m k = record { after = λ s e failed h. k.after s h }

  -- A change that cannot fail.
  pub FailsKeeping-modify : (f : S → S) → FailsKeeping P (modify {E = E} f)
  FailsKeeping-modify f = record { after = λ s e failed h. cc }

module _ {ℓ} {S A B : Type ℓ} {E : Type 0} {P : S → Type ℓ} where
  continue_fails :
      (r : Result E A) (f : A → Exec S E B) (s : S) (e : E)
      → ((a : A) → FailsKeeping P (f a))
      → (continue r f s).0 ≡ err e
      → P s
      → P (continue r f s).1
  continue_fails (ok a) f s e kf failed h = (kf a).after s e failed h
  continue_fails (err e') f s e kf failed h = h

  pub FailsKeeping-bind :
      (m : Exec S E A) (f : A → Exec S E B)
      → Keeps P m
      → ((a : A) → FailsKeeping P (f a))
      → FailsKeeping P (m >>= f)
  FailsKeeping-bind m f km kf = record {
    after = λ s e failed h. continue_fails (m s).0 f (m s).1 e kf failed (km.after s h);
  }
