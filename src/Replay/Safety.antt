-- ===== src/Replay/Safety.antt =====
-- What a bridge that drains (logjetd/src/replay.rs) has acknowledged, whatever fails.
use mathlib.Core.List.{mem-cons_self}
use logjet.Base.{
  ℕ, zero, suc, ◌≡◌, refl, sym, ap, subst, Bool, List, [], ◌∷◌, ◌++◌, append-nil, Result, ok, err,
  Option, none, some, inl, inr,
}
use logjet.Base.Exec.{Exec, continue}
use logjet.Error.{ErrorKind}
use logjet.Record.{RecordType}
use logjet.Codec.{Libraries}
use logjet.Source.{Source}
use logjet.Protocol.Frame.{WireRecord}
use logjet.Protocol.Wire.{read_record}
use logjet.Protocol.Replay.{write_replay_ack}
use logjet.Replay.Collectors.{Connector, post_for}
use logjet.Replay.Received.{IsCollector, HaveGrown, post_for-grown, post_for-IsDelivered}
use logjet.Replay.Bridge.{
  Bridge, Setup, commit_record, acknowledge, write_bridge_state, bridge_record, bridge_read,
  bridge_records,
}
use logjet.Protocol.ReplayAhead.{ack_bytes}
use logjet.Replay.Acknowledged.{
  draining, HasRecord, read_onward, records_read, IsSafe, IsSafe-silent, IsSafe-same, IsSafe-more,
  IsSafe-then, IsSafe-read,
}

module _ (lib : Libraries) {F C : Type 0} (received : C → List (RecordType × List ℕ))
    (state_file : Bool) (write_file : List ℕ → Exec F ErrorKind (Unit {0}))
    (connector : Connector C) (open_connection : Result ErrorKind (List C))
    (law : IsCollector connector received) where
  abbrev setup : Setup (List ℕ) F C
  setup = draining state_file write_file connector open_connection

  -- One record: safe, and done where the result is `ok`.
  abbrev IsHandled :
      WireRecord → Bridge (List ℕ) F C → Result ErrorKind (Unit {0}) × Bridge (List ℕ) F C → Type 0
  IsHandled r b o = (safe : IsSafe received (r ∷ []) b o.1) × (o.0 ≡ ok tt → safe.left ≡ [])

  bridge_record-IsHandled :
      (r : WireRecord) (b : Bridge (List ℕ) F C) → IsHandled r b (bridge_record lib setup r b)
  unfolding bridge_record commit_record acknowledge write_replay_ack write_bridge_state
  bridge_record-IsHandled r b =
      by_post (post_for connector r.record_type r.payload b.collectors)
        (post_for-grown connector received law r.record_type r.payload b.collectors)
        (post_for-IsDelivered connector received law r.record_type r.payload b.collectors)
    where
      by_write :
          (cs : List C)
          → HaveGrown received b.collectors cs
          → HasRecord received cs r
          → (o : Result ErrorKind (Unit {0}) × F)
          → IsHandled r b (
              continue o.0
                (λ u. acknowledge setup r.seq)
                (record b {
                  collectors = cs;
                  state = record b.state { last_seq = r.seq };
                  file = o.1;
                }))
      by_write cs grown has (err e, f) = (
        IsSafe-silent received (r ∷ []) b _ grown refl (inr (r, mem-cons_self, refl, has)),
        λ e. cc,
      )
      by_write cs grown has (ok u, f) = (
        record {
          grown = grown;
          done = r ∷ [];
          left = [];
          split = refl;
          acknowledged = ap (λ l. b.outgoing ++ l) (sym (append-nil (ack_bytes r.seq)));
          delivered = (has, tt);
          resumes = inr (r, mem-cons_self, refl, has);
        },
        λ e. refl,
      )

      by_post :
          (o : Result ErrorKind (Unit {0}) × List C)
          → HaveGrown received b.collectors o.1
          → (o.0 ≡ ok tt → HasRecord received o.1 r)
          → IsHandled r b
              (continue o.0 (λ u. commit_record setup r.seq) (record b { collectors = o.1 }))
      by_post (err e, cs) grown has =
          (IsSafe-silent received (r ∷ []) b _ grown refl (inl refl), λ e. cc)
      by_post (ok u, cs) grown has = by_write cs grown (has refl) _

  -- The rest of the input stays as it was.
  bridge_record-incoming :
      (r : WireRecord) (b : Bridge (List ℕ) F C)
      → (bridge_record lib setup r b).1.incoming ≡ b.incoming
  unfolding bridge_record commit_record acknowledge write_replay_ack write_bridge_state
  bridge_record-incoming r b = by_post (post_for connector r.record_type r.payload b.collectors)
    where
      by_write :
          (cs : List C) (o : Result ErrorKind (Unit {0}) × F)
          → (continue o.0
              (λ u. acknowledge setup r.seq)
              (record b {
                collectors = cs;
                state = record b.state { last_seq = r.seq };
                file = o.1;
              })).1.incoming
            ≡ b.incoming
      by_write cs (err e, f) = refl
      by_write cs (ok u, f) = refl

      by_post :
          (o : Result ErrorKind (Unit {0}) × List C)
          → (continue o.0
              (λ u. commit_record setup r.seq)
              (record b { collectors = o.1 })).1.incoming
            ≡ b.incoming
      by_post (err e, cs) = refl
      by_post (ok u, cs) = by_write cs _

  -- Nothing is acknowledged, and so consumed at the source, before every collector has it: whatever
  -- bytes the upstream sends and whichever posts, reconnects and writes of the state file fail, what a
  -- draining bridge has sent after any number of rounds of its record loop is the acknowledgements, in
  -- order, of a front part of the records that its input holds, and all collectors have received each
  -- of these; the sequence number that a reconnect resumes from has either not moved or is that of a
  -- record of the input that all collectors have received; and what the collectors had before, they
  -- still have. What a collector has received stays, and a post that succeeds has arrived.
  pub bridge_records-IsSafe :
      (rounds : ℕ) (b : Bridge (List ℕ) F C)
      → IsSafe received (records_read lib rounds b.incoming) b (bridge_records lib setup rounds b).1
  unfolding bridge_records records_read
  bridge_records-IsSafe zero b = IsSafe-same received [] b b refl refl refl
  bridge_records-IsSafe (suc rounds) b =
      by_read (bridge_records-IsSafe rounds) (read_record lib b.incoming)
    where
      by_record :
          (r : WireRecord) (c : Bridge (List ℕ) F C)
          → ((d : Bridge (List ℕ) F C)
              → IsSafe received
                  (records_read lib rounds d.incoming)
                  d
                  (bridge_records lib setup rounds d).1)
          → (o : Result ErrorKind (Unit {0}) × Bridge (List ℕ) F C) → o.1.incoming ≡ c.incoming
          → IsHandled r c o
          → IsSafe received
              (r ∷ records_read lib rounds c.incoming)
              c
              (continue o.0 (λ u. bridge_records lib setup rounds) o.1).1
      by_record r c later (err e, d) same (safe, done) = IsSafe-more received r _ c d safe
      by_record r c later (ok u, d) same (safe, done) =
          IsSafe-then received r _ c d (bridge_records lib setup rounds d).1 safe (done refl) (
            subst
              (λ s.
                IsSafe received (records_read lib rounds s) d (bridge_records lib setup rounds d).1)
              same (later d))

      by_read :
          ((d : Bridge (List ℕ) F C)
            → IsSafe received
                (records_read lib rounds d.incoming)
                d
                (bridge_records lib setup rounds d).1)
          → (o : Result ErrorKind (Option WireRecord) × Source)
          → IsSafe received
              (read_onward (records_read lib rounds) o)
              b
              (continue o.0
                (bridge_read lib setup (bridge_records lib setup rounds))
                (record b { incoming = o.1 })).1
      by_read later (err e, s) = IsSafe-same received [] b _ refl refl refl
      by_read later (ok none, s) = IsSafe-same received [] b _ refl refl refl
      by_read later (ok (some r), s) =
          let c : Bridge (List ℕ) F C = record b { incoming = s } in
          IsSafe-read received _ s b _ (
            by_record r c later (bridge_record lib setup r c) (bridge_record-incoming r c)
              (bridge_record-IsHandled r c))
