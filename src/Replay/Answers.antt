-- ===== src/Replay/Answers.antt =====
-- The results of `export_worker` (logjetd/src/replay.rs) come in the order of its tasks.
use logjet.Base.{ℕ, Bool, true, false, List, [], ◌∷◌, Result, ok, err}
use logjet.Error.{ErrorKind}
use logjet.Replay.Collectors.{Connector, post_for}
use logjet.Replay.Batcher.{Otlp, Batching, add, flush_if_expired}
use logjet.Replay.Results.{ExportOutcome, delivered, ExportResult}
use logjet.Replay.Worker.{
  WorkerEvent, task, timed_out, Ended, is_logs, seqs_of, answer, unless_failed, run_task,
  export_worker,
}

-- Results in the order of the tasks: one for each from the first one on, up to where the worker ends, and
-- nothing behind a failure.
pub data Answers : List ℕ → List ExportResult → Type 0 where
  no_more : (seqs : List ℕ) → Answers seqs []
  failure :
      (seq : ℕ) (seqs : List ℕ) (e : ErrorKind)
      → Answers (seq ∷ seqs) (record { seq = seq; outcome = err e } ∷ [])
  success :
      {seqs : List ℕ} {rs : List ExportResult} (seq : ℕ) (outcome : ExportOutcome)
      → Answers seqs rs
      → Answers (seq ∷ seqs) (record { seq = seq; outcome = ok outcome } ∷ rs)

module _ {R S L C : Type 0} (otlp : Otlp R S L) (connector : Connector C) where
  answer-Answers :
      (seq : ℕ) (seqs : List ℕ) (heard : Bool) (result : Result ErrorKind (Unit {0}))
      (s : Batching R S L C) (later : Ended (Batching R S L C))
      → Answers seqs later.0
      → Answers (seq ∷ seqs) (answer otlp connector seq heard result s later).0
  answer-Answers seq seqs false result s later h = no_more (seq ∷ seqs)
  answer-Answers seq seqs true (err e) s later h = failure seq seqs e
  answer-Answers seq seqs true (ok u) s later h = success seq delivered h

  unless_failed-Answers :
      (seqs : List ℕ) (flushed : Result ErrorKind (Unit {0})) (s : Batching R S L C)
      (later : Ended (Batching R S L C))
      → Answers seqs later.0
      → Answers seqs (unless_failed otlp connector flushed s later).0
  unless_failed-Answers seqs (err e) s later h = no_more seqs
  unless_failed-Answers seqs (ok u) s later h = h

  -- The worker answers in order: whatever the tasks and the waits between them, and whatever fails, its
  -- results carry the numbers of the tasks, in the order of the tasks and without a gap, from the first
  -- one on, and only the last result can be a failure.
  pub export_worker-Answers :
      (events : List WorkerEvent) (s : Batching R S L C)
      → Answers (seqs_of events) (export_worker otlp connector events s).0
  unfolding export_worker
  export_worker-Answers [] s = no_more []
  export_worker-Answers (timed_out now ∷ rest) s =
      let flushed = flush_if_expired otlp connector now s in
      unless_failed-Answers (seqs_of rest) flushed.0 flushed.1
        (export_worker otlp connector rest flushed.1) (export_worker-Answers rest flushed.1)
  export_worker-Answers (task t now later heard ∷ rest) s =
      by_type (is_logs t.record_type) (export_worker-Answers rest)
    where
      by_type :
          (of_logs : Bool)
          → ((s' : Batching R S L C)
              → Answers (seqs_of rest) (export_worker otlp connector rest s').0)
          → Answers
              (t.seq ∷ seqs_of rest)
              (run_task otlp connector of_logs t now later heard s
                (export_worker otlp connector rest)).0
      by_type true h =
          let added = add otlp connector now t.payload s in
          let flushed = flush_if_expired otlp connector later added.1 in
          unless_failed-Answers (t.seq ∷ seqs_of rest) flushed.0 flushed.1 _
            (answer-Answers t.seq (seqs_of rest) heard added.0 flushed.1 _ (h flushed.1))
      by_type false h =
          let posted = post_for connector t.record_type t.payload s.conn in
          answer-Answers t.seq (seqs_of rest) heard posted.0 (record s { conn = posted.1 }) _
            (h (record s { conn = posted.1 }))
