-- ===== src/Replay/Results.antt =====
-- The bridge with backpressure (logjetd/src/replay.rs): the queue to the export worker and the results
-- that come back. The worker runs in its own thread: here it is what it has sent so far, what it will
-- still send, and whether it has hung up.
use logjet.Base.{
  ℕ, Bool, true, false, List, [], ◌∷◌, Option, none, some, ◌==◌, if◌then◌else◌, Result, ok, err,
  ◌+◌, ◌-◌, min, leb, not,
}
use logjet.Base.Exec.{Exec, pure, raise, lift, modify, ◌>>=◌, ◌>>◌}
use logjet.Error.{ErrorKind, invalid_data, broken_pipe, timed_out}
use logjet.Record.{RecordType, logs, metrics, traces, events}
use logjet.Replay.Bridge.{Bridge, Setup, commit_record}

pub data ExportOutcome : Type 0 where
  delivered dropped_newest : ExportOutcome

pub record ExportResult : Type 0 where
  pub seq : ℕ
  pub outcome : Result ErrorKind ExportOutcome

pub data PendingExport : Type 0 where
  queued dropped : ℕ → PendingExport

pub record ResultChannel : Type 0 where
  pub ready : List ExportResult
  pub coming : List ExportResult
  pub hung_up : Bool

-- `try_recv`; nothing ready is no error while the worker is there.
abbrev pub try_recv : Exec ResultChannel ErrorKind (Option ExportResult)
try_recv ch = elim ch.ready [
  | [] ↦ (if ch.hung_up then err broken_pipe else ok none, ch)
  | r ∷ rs ↦ (ok (some r), record ch { ready = rs })
]

abbrev pub wait : List ExportResult → Exec ResultChannel ErrorKind (Option ExportResult)
wait [] ch = (err broken_pipe, ch)
wait (r ∷ rs) ch = (ok (some r), record ch { coming = rs })

-- `recv` waits for what the worker sends, and fails when it ends.
abbrev pub recv : Exec ResultChannel ErrorKind (Option ExportResult)
recv ch = elim ch.ready [
  | [] ↦ wait ch.coming ch
  | r ∷ rs ↦ (ok (some r), record ch { ready = rs })
]

abbrev pub receive : Bool → Exec ResultChannel ErrorKind (Option ExportResult)
receive true = recv
receive false = try_recv

abbrev pub in_order : ℕ → Option ExportResult → Result ErrorKind (Option ExportResult)
in_order expected_seq none = ok none
in_order expected_seq (some r) = if r.seq == expected_seq then ok (some r) else err invalid_data

-- The result for the front of `pending`; none where `flush_ready_results` returns.
unfoldable pub front_result :
    Bool → PendingExport → Exec ResultChannel ErrorKind (Option ExportResult)
front_result block (dropped seq) = pure (some (record { seq = seq; outcome = ok dropped_newest }))
front_result block (queued expected_seq) = receive block >>= λ r. lift (in_order expected_seq r)

pub record Exporting (O F C : Type 0) : Type 0 where
  pub bridge : Bridge O F C
  pub pending : List PendingExport
  pub results : ResultChannel

module _ {O F C : Type 0} where
  abbrev pub on_bridge :
      {A : Type 0} → Exec (Bridge O F C) ErrorKind A → Exec (Exporting O F C) ErrorKind A
  on_bridge m s = let r = m s.bridge in (r.0, record s { bridge = r.1 })

  abbrev pub on_results :
      {A : Type 0} → Exec ResultChannel ErrorKind A → Exec (Exporting O F C) ErrorKind A
  on_results m s = let r = m s.results in (r.0, record s { results = r.1 })

module _ {O F C : Type 0} (setup : Setup O F C) where
  -- The result's outcome, behind `pop_front`.
  unfoldable pub settle : ExportResult → Exec (Exporting O F C) ErrorKind (Unit {0})
  settle r = elim r.outcome [ ok outcome ↦ on_bridge (commit_record setup r.seq) | err e ↦ raise e ]

  abbrev pub settle_found :
      List PendingExport
      → Exec (Exporting O F C) ErrorKind (Unit {0})
      → Option ExportResult
      → Exec (Exporting O F C) ErrorKind (Unit {0})
  settle_found rest again none = pure tt
  settle_found rest again (some r) = do modify (λ s. record s { pending = rest }); settle r; again

  -- The loop over `pending`, which gets shorter in every round.
  unfoldable pub flush_rounds :
      Bool → List PendingExport → Exec (Exporting O F C) ErrorKind (Unit {0})
  flush_rounds block [] = pure tt
  flush_rounds block (front ∷ rest) =
      on_results (front_result block front) >>= settle_found rest (flush_rounds block rest)

  unfoldable pub flush_ready_results : Bool → Exec (Exporting O F C) ErrorKind (Unit {0})
  flush_ready_results block s = flush_rounds block s.pending s

-- The queue of tasks: how many wait, how many fit, which the configuration has above 0, and whether
-- the worker still takes them.
pub data BackpressureMode : Type 0 where
  block disconnect drop_newest : BackpressureMode

pub data EnqueueOutcome : Type 0 where
  task_queued newest_dropped : EnqueueOutcome

pub record TaskQueue : Type 0 where
  pub depth : ℕ
  pub max_buffered_records : ℕ
  pub is_open : Bool

-- `send` waits until the worker has made room.
unfoldable pub send : Exec TaskQueue ErrorKind EnqueueOutcome
send q =
    if q.is_open
    then (ok task_queued, record q { depth = min q.depth (q.max_buffered_records - 1) + 1 })
    else (err broken_pipe, q)

-- `try_send`, with what a full queue comes to.
unfoldable pub try_send : Result ErrorKind EnqueueOutcome → Exec TaskQueue ErrorKind EnqueueOutcome
try_send on_full q =
    if not q.is_open
    then (err broken_pipe, q)
    else if leb q.max_buffered_records q.depth
    then (on_full, q)
    else (ok task_queued, record q { depth = q.depth + 1 })

unfoldable pub enqueue_export_task : BackpressureMode → Exec TaskQueue ErrorKind EnqueueOutcome
enqueue_export_task block = send
enqueue_export_task disconnect = try_send (err timed_out)
enqueue_export_task drop_newest = try_send (ok newest_dropped)

-- What `bridge_transport` appends to `pending` for it.
abbrev pub pending_of : ℕ → EnqueueOutcome → PendingExport
pending_of seq task_queued = queued seq
pending_of seq newest_dropped = dropped seq

pub record BridgeStats : Type 0 where
  pub records_read : ℕ
  pub drops_logs : ℕ
  pub drops_metrics : ℕ
  pub drops_traces : ℕ
  pub drops_events : ℕ

unfoldable pub note_record : BridgeStats → BridgeStats
note_record s = record s { records_read = s.records_read + 1 }

unfoldable pub note_drop : RecordType → BridgeStats → BridgeStats
note_drop logs s = record s { drops_logs = s.drops_logs + 1 }
note_drop metrics s = record s { drops_metrics = s.drops_metrics + 1 }
note_drop traces s = record s { drops_traces = s.drops_traces + 1 }
note_drop events s = record s { drops_events = s.drops_events + 1 }
