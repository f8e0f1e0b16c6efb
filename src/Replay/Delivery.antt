-- ===== src/Replay/Delivery.antt =====
-- The bridge's record loop (logjetd/src/replay.rs) when nothing fails.
use logjet.Base.{
  ℕ, suc, ◌^◌, ◌-◌, ◌≡◌, refl, sym, ap, ◌∙◌, subst, Bool, true, false, if◌then◌else◌, List, [], ◌∷◌,
  ◌++◌, map, append-nil, append_assoc, length, Result, ok, none, some, All, arith,
}
use logjet.Base.Exec.{Exec}
use logjet.Error.{ErrorKind}
use logjet.Record.{RecordType}
use logjet.Codec.{Libraries, LibraryLaws}
use logjet.Source.{Source, ahead, read_exact}
use logjet.Protocol.Frame.{WireRecord, wire_bytes}
use logjet.Protocol.Wire.{read_record, read_record_with_limit, read_magic, after_magic}
use logjet.Protocol.WireRoundTrip.{IsWireRecord, wire_bytes-read}
use logjet.Protocol.Replay.{write_replay_ack}
use logjet.Protocol.ReplayAhead.{ack_bytes}
use logjet.Replay.State.{bridge_state_text}
use logjet.Replay.Collectors.{Connector, post_for_one, post_for, retried, onward}
use logjet.Replay.Received.{IsCollector}
use logjet.Replay.Bridge.{
  Bridge, Setup, commit_record, acknowledge, write_bridge_state, bridge_record, bridge_records,
}
use logjet.Replay.Drain.{acks, frames, or_empty}
use logjet.Replay.Acknowledged.{draining}

module _ {C : Type 0} (received : C → List (RecordType × List ℕ)) where
  -- Every collector has received these, in this order, behind what it had.
  pub data HaveTaken (xs : List (RecordType × List ℕ)) : List C → List C → Type 0 where
    none_took : HaveTaken xs [] []
    one_took :
        {c d : C} {cs ds : List C}
        → received d ≡ received c ++ xs
        → HaveTaken xs cs ds
        → HaveTaken xs (c ∷ cs) (d ∷ ds)

module _ {C : Type 0} (received : C → List (RecordType × List ℕ)) where
  HaveTaken-nil : (cs : List C) → HaveTaken received [] cs cs
  HaveTaken-nil [] = none_took
  HaveTaken-nil (c ∷ cs) = one_took (sym (append-nil (received c))) (HaveTaken-nil cs)

  HaveTaken-trans :
      (xs ys : List (RecordType × List ℕ)) {as' bs cs : List C}
      → HaveTaken received xs as' bs
      → HaveTaken received ys bs cs
      → HaveTaken received (xs ++ ys) as' cs
  HaveTaken-trans xs ys none_took none_took = none_took
  HaveTaken-trans xs ys (one_took {c = a} h hs) (one_took k ks) =
      one_took (k ∙ ap (λ l. l ++ ys) h ∙ append_assoc (received a) xs ys)
        (HaveTaken-trans xs ys hs ks)

abbrev pub post_of : WireRecord → RecordType × List ℕ
post_of r = (r.record_type, r.payload)

abbrev pub last_seq_of : ℕ → List WireRecord → ℕ
last_seq_of seq [] = seq
last_seq_of seq (r ∷ rs) = last_seq_of r.seq rs

module _ {C : Type 0} (connector : Connector C) (received : C → List (RecordType × List ℕ))
    (law : IsCollector connector received)
    (takes : (t : RecordType) (p : List ℕ) (c : C) → (connector.post_for_inner t p c).0 ≡ ok tt)
    (t : RecordType) (p : List ℕ) where
  post_for_one-takes :
      (c : C) → post_for_one connector t p c ≡ (ok tt, (connector.post_for_inner t p c).1)
  unfolding post_for_one
  post_for_one-takes c =
      ap (λ r. retried connector t p (r, (connector.post_for_inner t p c).1)) (takes t p c)

  post_for-takes :
      (cs : List C)
      → ((post_for connector t p cs).0 ≡ ok tt)
        × HaveTaken received ((t, p) ∷ []) cs (post_for connector t p cs).1
  unfolding post_for
  post_for-takes [] = (refl, none_took)
  post_for-takes (c ∷ cs) =
      let later = post_for-takes cs in
      subst
        (λ o.
          ((onward connector o cs (post_for connector t p cs)).0 ≡ ok tt)
          × HaveTaken received ((t, p) ∷ []) (c ∷ cs)
              (onward connector o cs (post_for connector t p cs)).1)
        (sym (post_for_one-takes c)) (later.0, one_took (law.arrives t p c (takes t p c)) later.1)

read_record-end : (lib : Libraries) (s : Source) → ahead s ≡ [] → (read_record lib s).0 ≡ ok none
unfolding read_record read_record_with_limit read_magic read_exact after_magic
read_record-end lib s at = rw at

module _ (lib : Libraries) (laws : LibraryLaws lib) (compress : Bool) {F C : Type 0}
    (connector : Connector C) (received : C → List (RecordType × List ℕ))
    (law : IsCollector connector received)
    (takes : (t : RecordType) (p : List ℕ) (c : C) → (connector.post_for_inner t p c).0 ≡ ok tt)
    (state_file : Bool) (write_file : List ℕ → Exec F ErrorKind (Unit {0}))
    (saves : (text : List ℕ) (f : F) → (write_file text f).0 ≡ ok tt)
    (open_connection : Result ErrorKind (List C)) where
  abbrev setup : Setup (List ℕ) F C
  setup = draining state_file write_file connector open_connection

  pub write_bridge_state-saves : (b : Bridge (List ℕ) F C) → (write_bridge_state setup b).0 ≡ ok tt
  unfolding write_bridge_state
  write_bridge_state-saves b = by_flag state_file
    where
      by_flag :
          (flag : Bool)
          → ((if flag then write_file (bridge_state_text b.state) else λ f. (ok tt, f)) b.file).0
            ≡ ok tt
      by_flag true = saves (bridge_state_text b.state) b.file
      by_flag false = refl

  -- The bridge after one record.
  abbrev committed : WireRecord → Bridge (List ℕ) F C → Bridge (List ℕ) F C
  committed r b =
      let posted : Bridge (List ℕ) F C = record b {
        collectors = (post_for connector r.record_type r.payload b.collectors).1;
        state = record b.state { last_seq = r.seq };
      } in
      record (write_bridge_state setup posted).1 { outgoing = b.outgoing ++ ack_bytes r.seq }

  bridge_record-takes :
      (r : WireRecord) (b : Bridge (List ℕ) F C)
      → bridge_record lib setup r b ≡ (ok tt, committed r b)
  unfolding bridge_record commit_record acknowledge write_replay_ack write_bridge_state
  bridge_record-takes r b =
      let posted : Bridge (List ℕ) F C = record b {
        collectors = (post_for connector r.record_type r.payload b.collectors).1;
        state = record b.state { last_seq = r.seq };
      } in
      rw (
        (post_for-takes connector received law takes r.record_type r.payload b.collectors).0,
        write_bridge_state-saves posted,
      )

  read_record-frames :
      (r : WireRecord) (rest : List ℕ) (s : Source)
      → IsWireRecord r
      → ahead s ≡ or_empty (wire_bytes lib r compress) ++ rest
      → (s' : Source) × (read_record lib s ≡ (ok (some r), s')) × (ahead s' ≡ rest)
  unfolding read_record
  read_record-frames r rest s ranges at =
      let (buf, framed, read) =
        wire_bytes-read lib laws r ranges (2 ^ 64 - 1) (omega (arith, ranges.payload)) compress in
      read s rest (at ∙ ap (λ f. or_empty f ++ rest) framed)

  -- The bridge's record loop delivers what it reads: where the frames of records that are fit for the
  -- wire lie ahead and nothing behind them, every post succeeds and the state file can be written, one
  -- round more than there are records ends without an error, at the end of the stream; every collector
  -- has received these records, in order and each once, and nothing else; the acknowledgements sent are
  -- theirs, in order; and the state holds the last one's number. The libraries invert their own
  -- compression.
  pub bridge_records-delivers :
      (newer : List WireRecord) (b : Bridge (List ℕ) F C)
      → All IsWireRecord newer
      → ahead b.incoming ≡ frames lib compress newer
      → (b' : Bridge (List ℕ) F C) × (bridge_records lib setup (suc (length newer)) b ≡ (ok tt, b'))
        × HaveTaken received (map post_of newer) b.collectors b'.collectors
        × (b'.outgoing ≡ b.outgoing ++ acks newer)
        × (b'.state.last_seq ≡ last_seq_of b.state.last_seq newer)
  unfolding bridge_records write_bridge_state
  bridge_records-delivers [] b fit at =
      let read = read_record lib b.incoming in
      (
        record b { incoming = read.1 },
        rw (read_record-end lib b.incoming at),
        HaveTaken-nil received b.collectors,
        sym (append-nil b.outgoing),
        refl,
      )
  bridge_records-delivers (r ∷ rs) b (fits, fit) at =
      let (s', read, behind) = read_record-frames r (frames lib compress rs) b.incoming fits at in
      let b₁ : Bridge (List ℕ) F C = record b { incoming = s' } in
      let (b', run, took, out, last) = bridge_records-delivers rs (committed r b₁) fit behind in
      (
        b',
        rw (read, bridge_record-takes r b₁) run,
        HaveTaken-trans received (post_of r ∷ []) (map post_of rs)
            (post_for-takes connector received law takes r.record_type r.payload b.collectors).1
            took,
        out ∙ append_assoc b.outgoing (ack_bytes r.seq) (acks rs),
        last,
      )
