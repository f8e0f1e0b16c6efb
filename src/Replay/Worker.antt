-- ===== src/Replay/Worker.antt =====
-- `export_worker` of logjetd/src/replay.rs and the bridge's turn for one record under backpressure. What
-- the worker waits for are events in the order in which they come; their times are the clock's.
use logjet.Base.{ℕ, Bool, true, false, List, [], ◌∷◌, ◌++◌, Result, ok, err}
use logjet.Base.Exec.{Exec, modify, ◌>>=◌, ◌>>◌}
use logjet.Error.{ErrorKind}
use logjet.Record.{RecordType, logs, metrics, traces, events}
use logjet.Protocol.Frame.{WireRecord}
use logjet.Replay.Collectors.{Connector, post_for}
use logjet.Replay.Batcher.{Otlp, Batching, add, flush, flush_if_expired}
use logjet.Replay.Bridge.{Setup}
use logjet.Replay.Results.{
  delivered, newest_dropped, task_queued, ExportResult, Exporting, flush_ready_results,
  BackpressureMode, EnqueueOutcome, TaskQueue, enqueue_export_task, pending_of, BridgeStats,
  note_record, note_drop,
}

pub record ExportTask : Type 0 where
  pub seq : ℕ
  pub record_type : RecordType
  pub payload : List ℕ

-- A task, whose result the bridge still hears or not, or the end of a wait. After the last event the
-- bridge has hung up.
pub data WorkerEvent : Type 0 where
  task : (t : ExportTask) (now later : ℕ) (heard : Bool) → WorkerEvent
  timed_out : ℕ → WorkerEvent

abbrev pub is_logs : RecordType → Bool
is_logs logs = true
is_logs metrics = false
is_logs traces = false
is_logs events = false

-- The numbers of the tasks.
abbrev pub seqs_of : List WorkerEvent → List ℕ
seqs_of [] = []
seqs_of (timed_out now ∷ rest) = seqs_of rest
seqs_of (task t now later heard ∷ rest) = t.seq ∷ seqs_of rest

-- The results that are sent, what the worker returns, and its state then.
abbrev pub Ended : Type 0 → Type 0
Ended B = List ExportResult × (Result ErrorKind (Unit {0}) × B)

module _ {R S L C : Type 0} (otlp : Otlp R S L) (connector : Connector C) where
  abbrev pub Worker : Type 0
  Worker = Batching R S L C

  -- Behind the loop; the last flush's error is dropped.
  abbrev pub stopped : Worker → Ended Worker
  stopped s = ([], (ok tt, (flush otlp connector s).1))

  abbrev pub sent_on : ExportResult → Ended Worker → Ended Worker
  sent_on r end = (r ∷ end.0, end.1)

  -- The `send` of a result and the two breaks behind it.
  abbrev pub answer : ℕ → Bool → Result ErrorKind (Unit {0}) → Worker → Ended Worker → Ended Worker
  answer seq false result s later = stopped s
  answer seq true (err e) s later = sent_on (record { seq = seq; outcome = err e }) (stopped s)
  answer seq true (ok u) s later = sent_on (record { seq = seq; outcome = ok delivered }) later

  -- What is done when a flush of an expired batch has failed, or not.
  abbrev pub unless_failed : Result ErrorKind (Unit {0}) → Worker → Ended Worker → Ended Worker
  unless_failed (err e) s later = ([], (err e, s))
  unless_failed (ok u) s later = later

  abbrev pub run_logs : ExportTask → ℕ → ℕ → Bool → Worker → (Worker → Ended Worker) → Ended Worker
  run_logs t now later heard s again =
      let added = add otlp connector now t.payload s in
      let flushed = flush_if_expired otlp connector later added.1 in
      unless_failed flushed.0 flushed.1 (answer t.seq heard added.0 flushed.1 (again flushed.1))

  abbrev pub run_other : ExportTask → Bool → Worker → (Worker → Ended Worker) → Ended Worker
  run_other t heard s again =
      let posted = post_for connector t.record_type t.payload s.conn in
      let s' = record s { conn = posted.1 } in answer t.seq heard posted.0 s' (again s')

  abbrev pub run_task :
      Bool → ExportTask → ℕ → ℕ → Bool → Worker → (Worker → Ended Worker) → Ended Worker
  run_task true t now later heard s again = run_logs t now later heard s again
  run_task false t now later heard s again = run_other t heard s again

  unfoldable pub export_worker : List WorkerEvent → Worker → Ended Worker
  export_worker [] s = stopped s
  export_worker (timed_out now ∷ rest) s =
      let flushed = flush_if_expired otlp connector now s in
      unless_failed flushed.0 flushed.1 (export_worker rest flushed.1)
  export_worker (task t now later heard ∷ rest) s =
      run_task (is_logs t.record_type) t now later heard s (export_worker rest)

-- One record that the bridge has read: the results that are ready, then the queue to the worker.
pub record Backlog (O F C : Type 0) : Type 0 where
  pub exporting : Exporting O F C
  pub queue : TaskQueue
  pub stats : BridgeStats

abbrev pub note_outcome : EnqueueOutcome → RecordType → BridgeStats → BridgeStats
note_outcome task_queued record_type stats = stats
note_outcome newest_dropped record_type stats = note_drop record_type stats

module _ {O F C : Type 0} (setup : Setup O F C) (mode : BackpressureMode) where
  abbrev pub on_exporting :
      {A : Type 0} → Exec (Exporting O F C) ErrorKind A → Exec (Backlog O F C) ErrorKind A
  on_exporting m s = let r = m s.exporting in (r.0, record s { exporting = r.1 })

  abbrev pub on_queue : {A : Type 0} → Exec TaskQueue ErrorKind A → Exec (Backlog O F C) ErrorKind A
  on_queue m s = let r = m s.queue in (r.0, record s { queue = r.1 })

  abbrev pub push_back : WireRecord → EnqueueOutcome → Backlog O F C → Backlog O F C
  push_back r outcome s = record s {
    exporting = record s.exporting {
      pending = s.exporting.pending ++ (pending_of r.seq outcome ∷ []);
    };
    stats = note_outcome outcome r.record_type s.stats;
  }

  unfoldable pub backlog_record : WireRecord → Exec (Backlog O F C) ErrorKind (Unit {0})
  backlog_record r = do
    on_exporting (flush_ready_results setup false)
    modify (λ s. record s { stats = note_record s.stats })
    outcome ← on_queue (enqueue_export_task mode)
    modify (push_back r outcome)
