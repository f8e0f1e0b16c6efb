-- ===== src/Replay/Session.antt =====
-- `handle_replay_transport` and `handle_replay_transport_drain` of logjetd/src/daemon.rs over a spool in
-- memory. The transport's reading side is what the client sends; its writing side is `write_all` and
-- `flush`, which may fail. Nothing is appended meanwhile, so a loop ends where it would wait for a change.
use logjet.Base.{
  ℕ, zero, suc, Bool, true, false, not, List, [], ◌∷◌, Option, none, some, ◌==◌, if◌then◌else◌,
  fail_if, ok,
}
use logjet.Base.Exec.{Exec, pure, lift, gets, modify, ◌>>=◌, ◌>>◌}
use logjet.Error.{ErrorKind, invalid_data}
use logjet.Codec.{Libraries}
use logjet.Source.{Source}
use logjet.Protocol.Frame.{WireRecord}
use logjet.Protocol.Wire.{write_record}
use logjet.Protocol.Replay.{ReplayHello, write_replay_hello, read_replay_request, read_replay_ack}
use logjet.Spool.Buffer.{
  BufferSpool, BufferReplayCursor, next_for_cursor, replay_cursor_after, consume_through,
}

pub record Session (O : Type 0) : Type 0 where
  pub incoming : Source
  pub outgoing : O
  pub spool : BufferSpool
  pub cursor : BufferReplayCursor

abbrev pub last_of : WireRecord → List WireRecord → WireRecord
last_of r [] = r
last_of r (r' ∷ rs) = last_of r' rs

abbrev pub bounds_of : List WireRecord → Option (ℕ × ℕ)
bounds_of [] = none
bounds_of (r ∷ rs) = some (r.seq, (last_of r rs).seq)

unfoldable pub sequence_bounds : BufferSpool → Option (ℕ × ℕ)
sequence_bounds s = bounds_of s.records

unfoldable pub hello_of : BufferSpool → ReplayHello
hello_of s = elim (sequence_bounds s) [
  | none ↦ record { stream_id = s.stream_id; first_seq = 0; last_seq = 0 }
  | some (first_seq, last_seq) ↦ record {
    stream_id = s.stream_id;
    first_seq = first_seq;
    last_seq = last_seq;
  }
]

module _ {O : Type 0} where
  abbrev pub outward : {A : Type 0} → Exec O ErrorKind A → Exec (Session O) ErrorKind A
  outward m s = let r = m s.outgoing in (r.0, record s { outgoing = r.1 })

  abbrev pub inward : {A : Type 0} → Exec Source ErrorKind A → Exec (Session O) ErrorKind A
  inward m s = let r = m s.incoming in (r.0, record s { incoming = r.1 })

  -- The spool's next record for the cursor.
  unfoldable pub next : Exec (Session O) ErrorKind (Option WireRecord)
  next s =
      let found = next_for_cursor s.cursor s.spool in (ok found.0, record s { cursor = found.1 })

module _ (lib : Libraries) {O : Type 0} (write_all : List ℕ → Exec O ErrorKind (Unit {0}))
    (flush : Exec O ErrorKind (Unit {0})) (wire_compression : Bool) where
  -- One record of the draining loop.
  unfoldable pub drain_record : WireRecord → Exec (Session O) ErrorKind (Unit {0})
  drain_record r = do
    outward (write_record lib write_all r wire_compression)
    outward flush
    ack ← inward read_replay_ack
    lift (fail_if (not (ack.ack_seq == r.seq)) invalid_data)
    modify (λ s. record s { spool = consume_through ack.ack_seq s.spool })

  abbrev drain_found :
      Exec (Session O) ErrorKind (Unit {0})
      → Option WireRecord
      → Exec (Session O) ErrorKind (Unit {0})
  drain_found again none = pure tt
  drain_found again (some r) = drain_record r >> again

  -- `handle_replay_transport_drain` for a number of rounds, or until it waits.
  unfoldable pub handle_replay_transport_drain : ℕ → Exec (Session O) ErrorKind (Unit {0})
  handle_replay_transport_drain zero = pure tt
  handle_replay_transport_drain (suc rounds) =
      next >>= drain_found (handle_replay_transport_drain rounds)

  abbrev send_found :
      Exec (Session O) ErrorKind Bool → Option WireRecord → Exec (Session O) ErrorKind Bool
  send_found again none = pure false
  send_found again (some r) = do
    outward (write_record lib write_all r wire_compression)
    again
    pure true

  -- The inner loop that keeps the records, with `sent_any`.
  unfoldable pub send_newer : ℕ → Exec (Session O) ErrorKind Bool
  send_newer zero = pure false
  send_newer (suc rounds) = next >>= send_found (send_newer rounds)

  -- The outer loop: after a pass that sent nothing it waits.
  unfoldable pub keep_sending : ℕ → ℕ → Exec (Session O) ErrorKind (Unit {0})
  keep_sending rounds zero = pure tt
  keep_sending rounds (suc passes) = send_newer rounds >>= λ sent_any.
      if sent_any then outward flush >> keep_sending rounds passes else pure tt

  unfoldable pub handle_replay_transport : ℕ → Exec (Session O) ErrorKind (Unit {0})
  handle_replay_transport rounds = do
    spool ← gets (λ s. s.spool)
    outward (write_replay_hello write_all (hello_of spool))
    outward flush
    request ← inward read_replay_request
    modify (λ s. record s { cursor = replay_cursor_after request.from_seq s.spool })
    if request.consume then handle_replay_transport_drain rounds else keep_sending rounds rounds
