-- ===== src/Tests/Replay.antt =====
-- The theorems on the replay and the bridge at concrete connections, collectors and batches.
use logjet.Base.{
  ap, ℕ, ◌+◌, ◌≡◌, refl, sym, append-nil, Bool, true, false, List, [], ◌∷◌, ◌++◌, map, none, some,
  ◌==◌, ==_iff, ok, err, All, arith,
}
use logjet.Base.Exec.{Exec}
use logjet.Error.{ErrorKind, other}
use logjet.Record.{RecordType}
use logjet.Source.{Source, ahead}
use logjet.Protocol.Frame.{WireRecord}
use logjet.Protocol.WireRoundTrip.{IsWireRecord}
use logjet.Protocol.ReplayAhead.{request_bytes, hello_bytes}
use logjet.Spool.Buffer.{messages, BufferSpool}
use logjet.Spool.Cursor.{IsAscending}
use logjet.Replay.State.{BridgeState, bridge_state_text}
use logjet.Replay.StateParse.{parse_bridge_state}
use logjet.Replay.StateRoundTrip.{parse_bridge_state-bridge_state_text}
use logjet.Replay.Session.{
  Session, hello_of, sequence_bounds, handle_replay_transport, handle_replay_transport_drain,
}
use logjet.Replay.Drain.{transmit, no_flush, acks, frames, drain-delivers}
use logjet.Replay.Collectors.{Connector, post_for, post_for_one}
use logjet.Replay.Received.{IsCollector}
use logjet.Replay.Bridge.{Bridge, bridge_records, bridge_transport}
use logjet.Replay.Acknowledged.{draining, IsSafe, records_read}
use logjet.Replay.Safety.{bridge_records-IsSafe}
use logjet.Replay.Delivery.{HaveTaken, post_of, bridge_records-delivers}
use logjet.Replay.Exchange.{drain_request, exchange-delivers}
use logjet.Replay.Results.{ExportOutcome, queued, dropped, Exporting, flush_ready_results}
use logjet.Replay.Settling.{IsFlushed, flush_ready_results-IsFlushed}
use logjet.Replay.Batcher.{
  ResourceLogs, OtlpBatcher, Otlp, merge, merge_all, merge_resource, merge_scopes, flush,
  flush_if_expired, Batching, add,
}
use logjet.Replay.Batches.{tally, IsBatch, tally-merge, add-IsBatch}
use logjet.Replay.Worker.{WorkerEvent, task, export_worker}
use logjet.Replay.Answers.{Answers, export_worker-Answers}
use logjet.Tests.Fixtures.{toy, toy_laws}

abbrev numbered : ℕ → WireRecord
numbered seq = record {
  record_type = RecordType.logs;
  seq = seq;
  ts_unix_ns = 10;
  payload = 1 ∷ 2 ∷ [];
}

abbrev newer : List WireRecord
newer = numbered 2 ∷ numbered 5 ∷ []

newer-IsWireRecord : All IsWireRecord newer
newer-IsWireRecord = (
  record { seq = omega arith; ts_unix_ns = omega arith; payload = omega arith },
  (record { seq = omega arith; ts_unix_ns = omega arith; payload = omega arith }, tt),
)

abbrev spool : BufferSpool
spool = record {
  stream_id = 7;
  limit = messages 5;
  keep_messages = 0;
  records = numbered 1 ∷ newer;
  tail_bytes = 0;
}

spool-IsAscending : IsAscending spool.records
spool-IsAscending = ((omega arith, (omega arith, tt)), ((omega arith, tt), (tt, tt)))

abbrev at_start : List ℕ → Source
at_start bytes = record { bytes = bytes; pos = 0 }

abbrev session : List ℕ → Session (List ℕ)
session bytes = record {
  incoming = at_start bytes;
  outgoing = [];
  spool = spool;
  cursor = record { next_index = 0; last_seq = 1 };
}

-- A collector that takes everything, by what it has received.
abbrev Taker : Type 0
Taker = List (RecordType × List ℕ)

abbrev taker : Connector Taker
taker = record {
  post_for_inner = λ t p c. (ok tt, c ++ ((t, p) ∷ []));
  reconnect = λ c. (ok tt, c);
}

taker-IsCollector : IsCollector taker (λ c. c)
taker-IsCollector = record {
  arrives = λ t p c e. refl;
  stays = λ t p c. ((t, p) ∷ [], refl);
  reconnects = λ c. ([], sym (append-nil c));
}

-- A file that can be written, and one that cannot.
abbrev writes : List ℕ → Exec (List ℕ) ErrorKind (Unit {0})
writes text file = (ok tt, text)

abbrev full_disk : List ℕ → Exec (List ℕ) ErrorKind (Unit {0})
full_disk text file = (err other, file)

abbrev state : BridgeState
state = record { stream_id = some 7; last_seq = 1 }

abbrev bridge : List ℕ → Bridge (List ℕ) (List ℕ) Taker
bridge bytes = record {
  incoming = at_start bytes;
  outgoing = [];
  state = state;
  file = [];
  collectors = [] ∷ [] ∷ [];
}

parse_bridge_state-bridge_state_text_example :
    parse_bridge_state (bridge_state_text state) ≡ ok state
parse_bridge_state-bridge_state_text_example =
    parse_bridge_state-bridge_state_text state (omega arith) (omega arith)

drain-delivers_example :
    (s' : Session (List ℕ)) × (handle_replay_transport_drain toy transmit no_flush true 3
        (session (acks newer ++ []))
      ≡ (ok tt, s'))
    × (s'.outgoing ≡ [] ++ frames toy true newer)
    × (s'.spool.records ≡ [])
    × (ahead s'.incoming ≡ [])
drain-delivers_example =
    drain-delivers toy toy_laws true newer (numbered 1 ∷ []) (session (acks newer ++ [])) [] refl
      spool-IsAscending (omega arith, tt) (omega arith, (omega arith, tt)) newer-IsWireRecord refl

bridge_records-IsSafe_example :
    IsSafe
      (λ c. c)
      (records_read toy 3 (bridge (frames toy true newer)).incoming)
      (bridge (frames toy true newer))
      (bridge_records toy
        (draining true full_disk taker (ok ([] ∷ [])))
        3
        (bridge (frames toy true newer))).1
bridge_records-IsSafe_example =
    bridge_records-IsSafe toy (λ c. c) true full_disk taker (ok ([] ∷ [])) taker-IsCollector 3
      (bridge (frames toy true newer))

bridge_records-delivers_example :
    (b' : Bridge (List ℕ) (List ℕ) Taker) × (bridge_records toy
        (draining true writes taker (ok ([] ∷ [])))
        3
        (bridge (frames toy true newer))
      ≡ (ok tt, b'))
    × HaveTaken (λ c. c) (map post_of newer) ([] ∷ [] ∷ []) b'.collectors
    × (b'.outgoing ≡ [] ++ acks newer)
    × (b'.state.last_seq ≡ 5)
bridge_records-delivers_example =
    bridge_records-delivers toy toy_laws true taker (λ c. c) taker-IsCollector (λ t p c. refl) true
      writes (λ text f. refl) (ok ([] ∷ [])) newer (bridge (frames toy true newer))
      newer-IsWireRecord refl

abbrev asked : List ℕ
asked = request_bytes (drain_request 1) ++ acks newer

abbrev told : List ℕ
told = hello_bytes (record { stream_id = 7; first_seq = 1; last_seq = 5 }) ++ frames toy true newer

exchange-delivers_example :
    (s' : Session (List ℕ)) × (b' : Bridge (List ℕ) (List ℕ) Taker) × (handle_replay_transport toy
        transmit no_flush true 3
        (session asked)
      ≡ (ok tt, s'))
    × (bridge_transport toy (draining true writes taker (ok ([] ∷ []))) 3 (bridge told)
        ≡ (ok tt, b'))
    × (s'.outgoing ≡ told)
    × (b'.outgoing ≡ asked)
    × HaveTaken (λ c. c) (map post_of newer) ([] ∷ []) b'.collectors
    × (s'.spool.records ≡ [])
    × (b'.state.last_seq ≡ 5)
unfolding hello_of sequence_bounds
exchange-delivers_example =
    exchange-delivers toy toy_laws true taker (λ c. c) taker-IsCollector (λ t p c. refl) true writes
      (λ text f. refl) ([] ∷ []) newer (numbered 1 ∷ []) (session asked) (bridge told) refl
      spool-IsAscending (omega arith, tt) (omega arith, (omega arith, tt)) newer-IsWireRecord
      (omega arith) (omega arith) (omega arith) (omega arith) refl refl refl refl

-- A queued export with its result, and one that was dropped behind it.
abbrev exporting : Exporting (List ℕ) (List ℕ) Taker
exporting = record {
  bridge = bridge [];
  pending = queued 2 ∷ dropped 5 ∷ [];
  results = record {
    ready = record { seq = 2; outcome = ok ExportOutcome.delivered } ∷ [];
    coming = [];
    hung_up = false;
  };
}

flush_ready_results-IsFlushed_example :
    IsFlushed exporting.pending exporting
      (flush_ready_results (draining true writes taker (ok ([] ∷ []))) false exporting).1
flush_ready_results-IsFlushed_example =
    flush_ready_results-IsFlushed true writes taker (ok ([] ∷ [])) false exporting

-- Resources, scopes and records that are numbers; every payload is a request of one record.
abbrev otlp : Otlp ℕ ℕ ℕ
otlp = record {
  same_resource = λ a b. a == b;
  same_scope = λ a b. a == b;
  decode = λ payload. some (
      record {
        resource = 1;
        scope_logs = record { scope = 2; log_records = 3 ∷ []; schema_url = "" } ∷ [];
        schema_url = "";
      }
      ∷ []);
  encode_to_vec = λ request. [];
}

abbrev request : List (ResourceLogs ℕ ℕ ℕ)
request =
    record {
      resource = 1;
      scope_logs = record { scope = 2; log_records = 3 ∷ 4 ∷ []; schema_url = "" } ∷ [];
      schema_url = "";
    }
    ∷ []

abbrev batcher : OtlpBatcher ℕ ℕ ℕ
batcher = record {
  batch_size = 3;
  batch_timeout_ms = 0;
  pending = request;
  pending_count = 2;
  first_added = none;
}

abbrev is_three : ℕ → ℕ → ℕ → Bool
is_three r s l = l == 3

tally-merge_example :
    tally is_three (merge otlp 9 request batcher).pending
    ≡ tally is_three batcher.pending + tally is_three request
tally-merge_example =
    tally-merge otlp is_three (λ r r' e s l. ap (λ (q : ℕ). is_three q s l) ((==_iff r r').0 e))
      (λ s s' e r l. ap (λ (q : ℕ). is_three r q l) ((==_iff s s').0 e)) 9 request batcher

add-IsBatch_example :
    IsBatch (add otlp taker 9 (1 ∷ []) (record { batcher = batcher; conn = [] ∷ [] })).1.batcher
    × ((add otlp taker 9
          (1 ∷ [])
          (record { batcher = batcher; conn = [] ∷ [] })).1.batcher.batch_size
        ≡ 3)
add-IsBatch_example =
    add-IsBatch otlp taker 9 (1 ∷ []) (record { batcher = batcher; conn = [] ∷ [] })
      (refl, omega arith)

-- A collector that takes nothing.
abbrev refuser : Connector Taker
refuser = record { post_for_inner = λ t p c. (err other, c); reconnect = λ c. (ok tt, c) }

abbrev logs_task : WorkerEvent
logs_task = task (record { seq = 2; record_type = RecordType.logs; payload = 1 ∷ [] }) 0 0 true

abbrev worker : Batching ℕ ℕ ℕ Taker
worker = record { batcher = record batcher { pending = []; pending_count = 0 }; conn = [] ∷ [] }

export_worker-Answers_example :
    Answers (2 ∷ []) (export_worker otlp taker (logs_task ∷ []) worker).0
export_worker-Answers_example = export_worker-Answers otlp taker (logs_task ∷ []) worker

-- A record that is only in the batch counts as delivered, and the last flush's error is dropped: the
-- bridge acknowledges what no collector has taken.
buffered_test : export_worker otlp refuser (logs_task ∷ []) worker ≡ (
  record { seq = 2; outcome = ok ExportOutcome.delivered } ∷ [],
  (ok tt, record worker { batcher = record worker.batcher { first_added = none } }),
)
unfolding export_worker add flush flush_if_expired merge merge_all merge_resource merge_scopes
    post_for post_for_one
buffered_test = refl
