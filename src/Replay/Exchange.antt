-- ===== src/Replay/Exchange.antt =====
-- The daemon's draining replay (logjetd/src/daemon.rs) and the bridge (logjetd/src/replay.rs) as the two
-- ends of one connection.
use logjet.Base.{
  ℕ, suc, ◌≡◌, sym, ap, ◌∙◌, subst, Bool, true, List, [], ◌++◌, map, append-nil, length, ok, All,
  IsU64,
}
use logjet.Base.Exec.{Exec}
use logjet.Error.{ErrorKind}
use logjet.Record.{RecordType}
use logjet.Codec.{Libraries, LibraryLaws}
use logjet.Source.{ahead}
use logjet.Protocol.Frame.{WireRecord}
use logjet.Protocol.WireRoundTrip.{IsWireRecord}
use logjet.Protocol.Replay.{ReplayRequest, ReplayHello, write_replay_hello, write_replay_request}
use logjet.Protocol.ReplayAhead.{
  request_bytes, hello_bytes, read_replay_request-ahead, read_replay_hello-ahead,
}
use logjet.Spool.Buffer.{replay_cursor_after}
use logjet.Spool.Cursor.{IsAscending}
use logjet.Replay.Cursor.{IsIncreasing, IsOld, replay_cursor_after-last_seq}
use logjet.Replay.State.{reconcile_bridge_state, resumed}
use logjet.Replay.Session.{Session, hello_of, handle_replay_transport}
use logjet.Replay.Drain.{transmit, no_flush, acks, frames, left, drain-delivers}
use logjet.Replay.Collectors.{Connector}
use logjet.Replay.Received.{IsCollector}
use logjet.Replay.Bridge.{Bridge, Setup, write_bridge_state, bridge_transport}
use logjet.Replay.Acknowledged.{draining}
use logjet.Replay.Delivery.{
  HaveTaken, post_of, last_seq_of, write_bridge_state-saves, bridge_records-delivers,
}

abbrev pub drain_request : ℕ → ReplayRequest
drain_request from_seq = record { from_seq = from_seq; consume = true }

module _ (lib : Libraries) (laws : LibraryLaws lib) (compress : Bool) where
  handle_replay_transport-drains :
      (newer old : List WireRecord) (from_seq : ℕ) (s : Session (List ℕ))
      → s.spool.records ≡ old ++ newer
      → IsAscending s.spool.records
      → IsOld from_seq old
      → IsIncreasing from_seq newer
      → All IsWireRecord newer
      → IsU64 from_seq
      → ahead s.incoming ≡ request_bytes (drain_request from_seq) ++ acks newer
      → (s' : Session (List ℕ)) × (handle_replay_transport lib transmit no_flush compress
            (suc (length newer))
            s
          ≡ (ok tt, s'))
        × (s'.outgoing
            ≡ (s.outgoing ++ hello_bytes (hello_of s.spool)) ++ frames lib compress newer)
        × (s'.spool.records ≡ left old newer)
  unfolding handle_replay_transport write_replay_hello
  handle_replay_transport-drains newer old from_seq s at asc behind inc fit u64 asked =
      let (incoming', read, rest) =
        read_replay_request-ahead (drain_request from_seq) (acks newer) s.incoming u64 asked in
      let s₁ : Session (List ℕ) = record s {
        incoming = incoming';
        outgoing = s.outgoing ++ hello_bytes (hello_of s.spool);
        cursor = replay_cursor_after from_seq s.spool;
      } in
      let last = sym (replay_cursor_after-last_seq from_seq s.spool) in
      let (s', run, out, gone, unread) =
        drain-delivers lib laws compress newer old s₁ [] at asc
          (subst (λ seq. IsOld seq old) last behind)
          (subst (λ seq. IsIncreasing seq newer) last inc) fit
          (rest ∙ sym (append-nil (acks newer))) in
      (s', rw read run, out, gone)

module _ (lib : Libraries) (laws : LibraryLaws lib) (compress : Bool) {F C : Type 0}
    (connector : Connector C) (received : C → List (RecordType × List ℕ))
    (law : IsCollector connector received)
    (takes : (t : RecordType) (p : List ℕ) (c : C) → (connector.post_for_inner t p c).0 ≡ ok tt)
    (state_file : Bool) (write_file : List ℕ → Exec F ErrorKind (Unit {0}))
    (saves : (text : List ℕ) (f : F) → (write_file text f).0 ≡ ok tt) (collectors : List C) where
  abbrev setup : Setup (List ℕ) F C
  setup = draining state_file write_file connector (ok collectors)

  bridge_transport-drains :
      (newer : List WireRecord) (hello : ReplayHello) (b : Bridge (List ℕ) F C)
      → All IsWireRecord newer
      → IsU64 hello.stream_id
      → IsU64 hello.first_seq
      → IsU64 hello.last_seq
      → ahead b.incoming ≡ hello_bytes hello ++ frames lib compress newer
      → (b' : Bridge (List ℕ) F C) × (bridge_transport lib setup (suc (length newer)) b
          ≡ (ok tt, b'))
        × (b'.outgoing
            ≡ (b.outgoing
                ++ request_bytes (drain_request (resumed b.state.stream_id b.state.last_seq hello)))
              ++ acks newer)
        × HaveTaken received (map post_of newer) collectors b'.collectors
        × (b'.state.last_seq ≡ last_seq_of (resumed b.state.stream_id b.state.last_seq hello) newer)
  unfolding bridge_transport write_replay_request reconcile_bridge_state write_bridge_state
  bridge_transport-drains newer hello b fit hi hf hl sent =
      let (incoming', read, rest) =
        read_replay_hello-ahead hello (frames lib compress newer) b.incoming hi hf hl sent in
      let b₁ : Bridge (List ℕ) F C = record b {
        incoming = incoming';
        state = reconcile_bridge_state hello b.state;
      } in
      let saved =
        write_bridge_state-saves lib laws compress connector received law takes state_file
          write_file saves (ok collectors) b₁ in
      let b₂ : Bridge (List ℕ) F C = record (write_bridge_state setup b₁).1 {
        outgoing =
            b.outgoing
            ++ request_bytes (drain_request (resumed b.state.stream_id b.state.last_seq hello));
        collectors = collectors;
      } in
      let (b', run, took, out, last) =
        bridge_records-delivers lib laws compress connector received law takes state_file write_file
          saves (ok collectors) newer b₂ fit rest in
      (b', rw (read, saved) run, out, took, last)

  -- A drained spool ends up at the collectors, each record once: put a daemon's end of a connection,
  -- whose spool in memory holds some records up to the number that the bridge resumes from and then newer
  -- ones with increasing numbers, fit for the wire, and a bridge's end, nothing sent on either yet. If
  -- nothing fails, then what the daemon sends when it is given the bridge's bytes and what the bridge
  -- sends when it is given the daemon's bytes are exactly these bytes, both ends having run without an
  -- error, one round more than there are newer records; and every collector has received the newer
  -- records, in order, each once and nothing else; the spool has no newer record left; and the bridge
  -- resumes from the last one. The libraries invert their own compression.
  pub exchange-delivers :
      (newer old : List WireRecord) (s : Session (List ℕ)) (b : Bridge (List ℕ) F C)
      → s.spool.records ≡ old ++ newer
      → IsAscending s.spool.records
      → IsOld (resumed b.state.stream_id b.state.last_seq (hello_of s.spool)) old
      → IsIncreasing (resumed b.state.stream_id b.state.last_seq (hello_of s.spool)) newer
      → All IsWireRecord newer
      → IsU64 (resumed b.state.stream_id b.state.last_seq (hello_of s.spool))
      → IsU64 (hello_of s.spool).stream_id
      → IsU64 (hello_of s.spool).first_seq
      → IsU64 (hello_of s.spool).last_seq
      → s.outgoing ≡ []
      → b.outgoing ≡ []
      → ahead s.incoming
        ≡ request_bytes
            (drain_request (resumed b.state.stream_id b.state.last_seq (hello_of s.spool)))
          ++ acks newer
      → ahead b.incoming ≡ hello_bytes (hello_of s.spool) ++ frames lib compress newer
      → (s' : Session (List ℕ)) × (b' : Bridge (List ℕ) F C) × (handle_replay_transport lib transmit
            no_flush compress
            (suc (length newer))
            s
          ≡ (ok tt, s'))
        × (bridge_transport lib setup (suc (length newer)) b ≡ (ok tt, b'))
        × (s'.outgoing ≡ ahead b.incoming)
        × (b'.outgoing ≡ ahead s.incoming)
        × HaveTaken received (map post_of newer) collectors b'.collectors
        × (s'.spool.records ≡ left old newer)
        × (b'.state.last_seq
            ≡ last_seq_of (resumed b.state.stream_id b.state.last_seq (hello_of s.spool)) newer)
  exchange-delivers newer old s b at asc behind inc fit u64 hi hf hl none_sent none_sent' asked
        sent =
      let from_seq = resumed b.state.stream_id b.state.last_seq (hello_of s.spool) in
      let (s', run, out, gone) =
        handle_replay_transport-drains lib laws compress newer old from_seq s at asc behind inc fit
          u64 asked in
      let (b', run', out', took, last) =
        bridge_transport-drains newer (hello_of s.spool) b fit hi hf hl sent in
      (
        s',
        b',
        run,
        run',
        out
            ∙ ap (λ o. (o ++ hello_bytes (hello_of s.spool)) ++ frames lib compress newer) none_sent
            ∙ sym sent,
        out'
            ∙ ap (λ o. (o ++ request_bytes (drain_request from_seq)) ++ acks newer) none_sent'
            ∙ sym asked,
        took,
        gone,
        last,
      )
