-- ===== src/Replay/Drain.antt =====
-- The draining replay of logjetd/src/daemon.rs delivers what a spool in memory has.
use logjet.Base.{
  ℕ, suc, ◌+◌, ◌≡◌, refl, sym, ap, ◌∙◌, subst, Bool, List, [], ◌∷◌, ◌++◌, append-nil, append_assoc,
  Result, ok, err, ==_refl, length, arith, All,
}
use logjet.Base.Exec.{Exec}
use logjet.Error.{ErrorKind}
use logjet.Codec.{Libraries, LibraryLaws}
use logjet.Source.{Source, ahead}
use logjet.Protocol.Frame.{WireRecord, wire_bytes}
use logjet.Protocol.Wire.{write_record}
use logjet.Protocol.WireRoundTrip.{IsWireRecord, wire_bytes-read}
use logjet.Protocol.ReplayAhead.{ack_bytes, read_replay_ack-ahead}
use logjet.Spool.Buffer.{pop_through, consume_through}
use logjet.Spool.Cursor.{IsAscending}
use logjet.Replay.Cursor.{
  IsIncreasing, IsOld, IsOld-mono, IsIncreasing-IsAscending, next_for_cursor-newer,
  next_for_cursor-waits, pop_through-append,
}
use logjet.Replay.Session.{Session, next, drain_record, handle_replay_transport_drain}

-- A connection that takes every write; what is sent on it so far.
abbrev pub transmit : List ℕ → Exec (List ℕ) ErrorKind (Unit {0})
transmit bytes sent = (ok tt, sent ++ bytes)

abbrev pub no_flush : Exec (List ℕ) ErrorKind (Unit {0})
no_flush sent = (ok tt, sent)

abbrev pub or_empty : Result ErrorKind (List ℕ) → List ℕ
or_empty (ok bytes) = bytes
or_empty (err kind) = []

-- The acknowledgements of these records.
abbrev pub acks : List WireRecord → List ℕ
acks [] = []
acks (r ∷ rs) = ack_bytes r.seq ++ acks rs

module _ (lib : Libraries) (compress : Bool) where
  -- The frames of these records.
  abbrev pub frames : List WireRecord → List ℕ
  frames [] = []
  frames (r ∷ rs) = or_empty (wire_bytes lib r compress) ++ frames rs

-- What is left behind when the records after `old` have been drained.
abbrev pub left : List WireRecord → List WireRecord → List WireRecord
left old [] = old
left old (r ∷ rs) = []

module _ (lib : Libraries) (laws : LibraryLaws lib) (compress : Bool) where
  write_record-transmit :
      (r : WireRecord) (sent : List ℕ)
      → IsWireRecord r
      → write_record lib transmit r compress sent
        ≡ (ok tt, sent ++ or_empty (wire_bytes lib r compress))
  unfolding write_record
  write_record-transmit r sent ranges =
      let (buf, framed, read) =
        wire_bytes-read lib laws r ranges (length r.payload + 4) (omega arith) compress in
      rw framed

  drain_record-acked :
      (r : WireRecord) (rest : List ℕ) (s : Session (List ℕ))
      → IsWireRecord r
      → ahead s.incoming ≡ ack_bytes r.seq ++ rest
      → (incoming' : Source) × (drain_record lib transmit no_flush compress r s ≡ (
        ok tt,
        record s {
          incoming = incoming';
          outgoing = s.outgoing ++ or_empty (wire_bytes lib r compress);
          spool = consume_through r.seq s.spool;
        },
      ))
        × (ahead incoming' ≡ rest)
  unfolding drain_record
  drain_record-acked r rest s ranges at =
      let (s', read, behind) = read_replay_ack-ahead r.seq rest s.incoming ranges.seq at in
      (s', rw (write_record-transmit r s.outgoing ranges, read, ==_refl r.seq), behind)

  -- `handle_replay_transport_drain` delivers everything and consumes it: where the spool's records are
  -- some at most the cursor's sequence number and then some with increasing numbers above it, each fit
  -- for the wire, and the client acknowledges these in order, one round more than there are of them ends
  -- without an error, with exactly their frames sent, in order, nothing of the acknowledgements left to
  -- read, and the spool emptied if it had a newer record at all. The libraries invert their own
  -- compression.
  pub drain-delivers :
      (newer old : List WireRecord) (s : Session (List ℕ)) (rest : List ℕ)
      → s.spool.records ≡ old ++ newer
      → IsAscending s.spool.records
      → IsOld s.cursor.last_seq old
      → IsIncreasing s.cursor.last_seq newer
      → All IsWireRecord newer
      → ahead s.incoming ≡ acks newer ++ rest
      → (s' : Session (List ℕ)) × (handle_replay_transport_drain lib transmit no_flush compress
            (suc (length newer))
            s
          ≡ (ok tt, s'))
        × (s'.outgoing ≡ s.outgoing ++ frames lib compress newer)
        × (s'.spool.records ≡ left old newer)
        × (ahead s'.incoming ≡ rest)
  unfolding handle_replay_transport_drain next
  drain-delivers [] old s rest at asc behind inc fit sent = (
    s,
    rw (
        next_for_cursor-waits s.spool s.cursor asc
          (subst (λ rs. IsOld s.cursor.last_seq rs) (sym (at ∙ append-nil old)) behind)),
    sym (append-nil s.outgoing),
    at ∙ append-nil old,
    sent,
  )
  drain-delivers (r ∷ rs) old s rest at asc behind (new, inc) (fits, fit) sent =
      let found = next_for_cursor-newer s.spool s.cursor old r rs asc at behind new in
      let s₁ : Session (List ℕ) = record s {
        cursor = record { next_index = length old + 1; last_seq = r.seq };
      } in
      let (incoming', acked, ahead') =
        drain_record-acked r (acks rs ++ rest) s₁ fits
          (sent ∙ append_assoc (ack_bytes r.seq) (acks rs) rest) in
      let s₂ : Session (List ℕ) = record s₁ {
        incoming = incoming';
        outgoing = s.outgoing ++ or_empty (wire_bytes lib r compress);
        spool = consume_through r.seq s.spool;
      } in
      let popped : s₂.spool.records ≡ rs =
        unfold consume_through in
        ap (pop_through r.seq) at
        ∙ pop_through-append old r rs
            (IsOld-mono s.cursor.last_seq r.seq old (omega (arith, new)) behind) inc in
      let (s', run, out, gone, unread) =
        drain-delivers rs [] s₂ rest popped
          (subst IsAscending (sym popped) (IsIncreasing-IsAscending r.seq rs inc)) tt inc fit
          ahead' in
      (
        s',
        rw (found, acked) run,
        out
            ∙ append_assoc s.outgoing (or_empty (wire_bytes lib r compress))
                (frames lib compress rs),
        gone ∙ left-nil rs,
        unread,
      )
    where
      left-nil : (rs : List WireRecord) → left [] rs ≡ []
      left-nil [] = refl
      left-nil (x ∷ xs) = refl
