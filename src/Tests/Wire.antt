-- ===== src/Tests/Wire.antt =====
-- The protocol's theorems on a record, a request, a hello and an acknowledgement.
use logjet.Base.{ℕ, ◌≡◌, refl, true, List, [], ◌∷◌, ◌++◌, some, ok, arith}
use logjet.Base.Exec.{◌>>◌}
use logjet.Record.{RecordType}
use logjet.Source.{Source, ahead}
use logjet.Protocol.Frame.{WireRecord, wire_bytes}
use logjet.Protocol.Wire.{read_record_with_limit}
use logjet.Protocol.WireRoundTrip.{IsWireRecord, read_record_with_limit-wire_bytes}
use logjet.Protocol.Replay.{
  ReplayRequest, ReplayHello, ReplayAck, write_replay_request, write_replay_hello, write_replay_ack,
  read_replay_request, read_replay_hello, read_replay_ack,
}
use logjet.Protocol.ReplayRoundTrip.{send, read_replay-write_replay}
use logjet.Tests.Fixtures.{toy, toy_laws}

abbrev wire_record : WireRecord
wire_record = record {
  record_type = RecordType.metrics;
  seq = 70000;
  ts_unix_ns = 9;
  payload = 1 ∷ 2 ∷ 3 ∷ [];
}

wire_record-IsWireRecord : IsWireRecord wire_record
wire_record-IsWireRecord = record {
  seq = omega arith;
  ts_unix_ns = omega arith;
  payload = omega arith;
}

read_record_with_limit-wire_bytes_example :
    (buf : List ℕ) × (s' : Source) × (wire_bytes toy wire_record true ≡ ok buf)
    × (read_record_with_limit toy 100
          (record { bytes = (9 ∷ 9 ∷ []) ++ (buf ++ (8 ∷ [])); pos = 2 })
        ≡ (ok (some wire_record), s'))
    × (ahead s' ≡ 8 ∷ [])
read_record_with_limit-wire_bytes_example =
    read_record_with_limit-wire_bytes toy toy_laws wire_record wire_record-IsWireRecord 100
      (omega arith) true (9 ∷ 9 ∷ []) (8 ∷ [])

abbrev connection : Source
connection = record { bytes = 5 ∷ 6 ∷ []; pos = 2 }

abbrev request : ReplayRequest
request = record { from_seq = 12; consume = true }

abbrev hello : ReplayHello
hello = record { stream_id = 77; first_seq = 1; last_seq = 300 }

abbrev ack : ReplayAck
ack = record { ack_seq = 300 }

read_replay-write_replay_example :
    ((s' : Source) × ((write_replay_request send request >> read_replay_request) connection
        ≡ (ok request, s'))
      × (ahead s' ≡ []))
    × ((s' : Source) × ((write_replay_hello send hello >> read_replay_hello) connection
          ≡ (ok hello, s'))
        × (ahead s' ≡ []))
    × ((s' : Source) × ((write_replay_ack send ack >> read_replay_ack) connection ≡ (ok ack, s'))
        × (ahead s' ≡ []))
read_replay-write_replay_example =
    read_replay-write_replay request hello ack connection (omega arith) (omega arith) (omega arith)
      (omega arith) (omega arith) refl
