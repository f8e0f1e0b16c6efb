-- ===== src/Base/Exec.antt =====
-- Methods on `&mut self` that may fail: what was written before an error stays written, so the
-- state comes back beside the error too.
use logjet.Base.Results.{Result, ok, err}

abbrev pub Exec {ℓ} : Type ℓ → Type 0 → Type ℓ → Type ℓ
Exec S E A = S → Result E A × S

module _ {ℓ} {S : Type ℓ} {E : Type 0} {A : Type ℓ} where
  abbrev pub pure : A → Exec S E A
  pure a s = (ok a, s)

  abbrev pub raise : E → Exec S E A
  raise e s = (err e, s)

  -- A fallible value that touches no state.
  abbrev pub lift : Result E A → Exec S E A
  lift r s = (r, s)

  abbrev pub gets : (S → A) → Exec S E A
  gets f s = (ok (f s), s)

abbrev pub modify {ℓ} : {S : Type ℓ} {E : Type 0} → (S → S) → Exec S E (Unit {ℓ})
modify f s = (ok tt, f s)

module _ {ℓ} {S : Type ℓ} {E : Type 0} {A B : Type ℓ} where
  abbrev pub continue : Result E A → (A → Exec S E B) → Exec S E B
  continue (ok a) f s = f a s
  continue (err e) f s = (err e, s)

  infixl 5 ◌>>=◌ ◌>>◌
  abbrev pub ◌>>=◌ : Exec S E A → (A → Exec S E B) → Exec S E B
  ◌>>=◌ m f s = let r = m s in continue r.0 f r.1

  abbrev pub ◌>>◌ : Exec S E A → Exec S E B → Exec S E B
  m >> n = m >>= λ _. n
