-- ===== src/Spool/File/Reading.antt =====
-- What the loops over the records of a segment file find where the file holds certain records
-- (logjetd/src/spool.rs).
use logjet.Base.{
  ℕ, zero, suc, ◌<◌, ◌≡◌, refl, ◌⊎◌, inl, inr, List, [], ◌∷◌, length, Result, ok, arith,
}
use logjet.Record.{OwnedRecord}
use logjet.Codec.{Libraries}
use logjet.Reader.State.{LogjetReader}
use logjet.Log.File.{Yields, stop, more}
use logjet.Spool.File.Records.{SpoolError, while_records, after_step}

module _ {A B : Type 0} (step : A → OwnedRecord → A ⊎ B) where
  -- The same loop over a list.
  abbrev pub go_on : (A → A ⊎ B) → A ⊎ B → A ⊎ B
  go_on later (inl a) = later a
  go_on later (inr b) = inr b

  unfoldable pub fold_while : A → List OwnedRecord → A ⊎ B
  fold_while a [] = inl a
  fold_while a (r ∷ rs) = go_on (λ a'. fold_while a' rs) (step a r)

  module _ (lib : Libraries) where
    stepped :
        (later : A → LogjetReader → Result SpoolError (A ⊎ B)) (later' : A → A ⊎ B)
        (r : LogjetReader) (next : A ⊎ B)
        → ((a : A) → later a r ≡ ok (later' a))
        → after_step step later r next ≡ ok (go_on later' next)
    stepped later later' r (inl a) h = h a
    stepped later later' r (inr b) h = refl

    pub while_records-Yields :
        (rs : List OwnedRecord) (rounds : ℕ) (a : A) (r : LogjetReader)
        → length rs < rounds
        → Yields lib r rs
        → while_records step lib rounds a r ≡ ok (fold_while a rs)
    unfolding while_records fold_while
    while_records-Yields rs zero a r h y = absurd (omega arith)
    while_records-Yields _ (suc rounds) a r h (stop end) = rw end
    while_records-Yields _ (suc rounds) a r h (more {r' = r'} {first} {rest} read later) = rw read (
        stepped (while_records step lib rounds) (λ a'. fold_while a' rest) r' (step a first)
          (λ a'. while_records-Yields rest rounds a' r' (omega arith) later))
