-- ===== src/Replay/Fronts.antt =====
-- The front of the bridge's pending exports (logjetd/src/replay.rs) and the result that settles it.
use logjet.Base.{
  ℕ, ◌≡◌, refl, subst, Bool, true, false, List, [], ◌∷◌, ◌++◌, Option, none, some, ◌==◌, ==_iff,
  if◌then◌else◌, Result, ok, err,
}
use logjet.Base.Exec.{continue, lift}
use logjet.Error.{ErrorKind, invalid_data, broken_pipe}
use logjet.Protocol.ReplayAhead.{ack_bytes}
use logjet.Replay.Results.{
  ExportOutcome, ExportResult, PendingExport, queued, dropped, ResultChannel, receive, in_order,
  front_result,
}

abbrev pub seq_of : PendingExport → ℕ
seq_of (queued seq) = seq
seq_of (dropped seq) = seq

abbrev pub seq_acks : List PendingExport → List ℕ
seq_acks [] = []
seq_acks (p ∷ ps) = ack_bytes (seq_of p) ++ seq_acks ps

abbrev pub waiting : ResultChannel → List ExportResult
waiting ch = ch.ready ++ ch.coming

-- Pending exports with the results that settle them: a dropped one has none, a queued one has the
-- next, a success with its own number.
pub data Settled : List PendingExport → List ExportResult → Type 0 where
  nothing : Settled [] []
  drops :
      {ps : List PendingExport} {rs : List ExportResult} (seq : ℕ)
      → Settled ps rs
      → Settled (dropped seq ∷ ps) rs
  delivers :
      {ps : List PendingExport} {rs : List ExportResult} (seq : ℕ) (outcome : ExportOutcome)
      → Settled ps rs
      → Settled (queued seq ∷ ps) (record { seq = seq; outcome = ok outcome } ∷ rs)

-- What `receive` comes back with, and what waits then.
data Got (ch : ResultChannel)
    : Result ErrorKind (Option ExportResult) × ResultChannel → Type 0 where
  got_error : (e : ErrorKind) (ch' : ResultChannel) → Got ch (err e, ch')
  got_none : (ch' : ResultChannel) → Got ch (ok none, ch')
  got_one :
      (r : ExportResult) (ch' : ResultChannel)
      → waiting ch ≡ r ∷ waiting ch'
      → Got ch (ok (some r), ch')

receive-Got : (block : Bool) (ch : ResultChannel) → Got ch (receive block ch)
receive-Got block ch = by_queues block ch.ready ch.coming ch.hung_up
  where
    channel : List ExportResult → List ExportResult → Bool → ResultChannel
    channel ready coming hung_up = record { ready = ready; coming = coming; hung_up = hung_up }

    by_queues :
        (block : Bool) (ready coming : List ExportResult) (hung_up : Bool)
        → Got (channel ready coming hung_up) (receive block (channel ready coming hung_up))
    by_queues true (x ∷ ready) coming hung_up = got_one x (channel ready coming hung_up) refl
    by_queues true [] (x ∷ coming) hung_up = got_one x (channel [] coming hung_up) refl
    by_queues true [] [] hung_up = got_error broken_pipe (channel [] [] hung_up)
    by_queues false (x ∷ ready) coming hung_up = got_one x (channel ready coming hung_up) refl
    by_queues false [] coming true = got_error broken_pipe (channel [] coming true)
    by_queues false [] coming false = got_none (channel [] coming false)

-- The same for the front of `pending`, whose number a result has.
pub data Fronted (ch : ResultChannel)
    : PendingExport → Result ErrorKind (Option ExportResult) × ResultChannel → Type 0 where
  front_error :
      (p : PendingExport) (e : ErrorKind) (ch' : ResultChannel) → Fronted ch p (err e, ch')
  front_none : (p : PendingExport) (ch' : ResultChannel) → Fronted ch p (ok none, ch')
  front_dropped :
      (seq : ℕ) (outcome : ExportOutcome)
      → Fronted ch (dropped seq) (ok (some (record { seq = seq; outcome = ok outcome })), ch)
  front_queued :
      (seq : ℕ) (outcome : Result ErrorKind ExportOutcome) (ch' : ResultChannel)
      → waiting ch ≡ record { seq = seq; outcome = outcome } ∷ waiting ch'
      → Fronted ch (queued seq) (ok (some (record { seq = seq; outcome = outcome })), ch')

pub front_result-Fronted :
    (block : Bool) (p : PendingExport) (ch : ResultChannel) → Fronted ch p (front_result block p ch)
unfolding front_result
front_result-Fronted block (dropped seq) ch = front_dropped seq ExportOutcome.dropped_newest
front_result-Fronted block (queued seq) ch = by_got (receive block ch) (receive-Got block ch)
  where
    by_order :
        (r : ExportResult) (ch' : ResultChannel) (same : Bool)
        → (r.seq == seq) ≡ same
        → waiting ch ≡ r ∷ waiting ch'
        → Fronted ch (queued seq) (if same then ok (some r) else err invalid_data, ch')
    by_order r ch' false e at = front_error (queued seq) invalid_data ch'
    by_order r ch' true e at =
        subst (λ n. Fronted ch (queued n) (ok (some r), ch')) ((==_iff r.seq seq).0 e)
          (front_queued r.seq r.outcome ch' at)

    by_got :
        (o : Result ErrorKind (Option ExportResult) × ResultChannel)
        → Got ch o
        → Fronted ch (queued seq) (continue o.0 (λ r. lift (in_order seq r)) o.1)
    by_got _ (got_error e ch') = front_error (queued seq) e ch'
    by_got _ (got_none ch') = front_none (queued seq) ch'
    by_got _ (got_one r ch' at) = by_order r ch' (r.seq == seq) refl at
