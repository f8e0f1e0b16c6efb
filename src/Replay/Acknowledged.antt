-- ===== src/Replay/Acknowledged.antt =====
-- What a bridge that drains (logjetd/src/replay.rs) owes from one state to a later one.
use mathlib.Core.List.{Mem, mem-append_left, mem-append_right}
use logjet.Base.{
  ℕ, zero, suc, ◌≡◌, refl, sym, ap, ◌∙◌, subst, Bool, true, List, [], ◌∷◌, ◌++◌, append-nil,
  append_assoc, Result, ok, err, Option, none, some, All, All-append, ◌⊎◌, inl, inr,
}
use logjet.Base.Exec.{Exec}
use logjet.Error.{ErrorKind}
use logjet.Record.{RecordType}
use logjet.Codec.{Libraries}
use logjet.Source.{Source}
use logjet.Protocol.Frame.{WireRecord}
use logjet.Protocol.Wire.{read_record}
use logjet.Replay.Collectors.{Connector}
use logjet.Replay.Received.{
  HaveGrown, HaveGrown-refl, HaveGrown-trans, IsDelivered, IsDelivered-grown,
}
use logjet.Replay.Bridge.{Bridge, Setup}
use logjet.Replay.Drain.{transmit, no_flush, acks}
use logjet.Protocol.ReplayAhead.{ack_bytes}

abbrev pub draining :
    {F C : Type 0}
    → Bool
    → (List ℕ → Exec F ErrorKind (Unit {0}))
    → Connector C
    → Result ErrorKind (List C)
    → Setup (List ℕ) F C
draining state_file write_file connector open_connection = record {
  write_all = transmit;
  flush = no_flush;
  state_file = state_file;
  write_file = write_file;
  connector = connector;
  open_connection = open_connection;
  consume = true;
}

acks-append : (rs qs : List WireRecord) → acks (rs ++ qs) ≡ acks rs ++ acks qs
acks-append [] qs = refl
acks-append (r ∷ rs) qs =
    ap (λ l. ack_bytes r.seq ++ l) (acks-append rs qs)
    ∙ sym (append_assoc (ack_bytes r.seq) (acks rs) (acks qs))

module _ {C : Type 0} (received : C → List (RecordType × List ℕ)) where
  abbrev pub HasRecord : List C → WireRecord → Type 0
  HasRecord cs r = IsDelivered received (r.record_type, r.payload) cs

  delivered-grown :
      (cs ds : List C) (rs : List WireRecord)
      → HaveGrown received cs ds
      → All (HasRecord cs) rs
      → All (HasRecord ds) rs
  delivered-grown cs ds [] h k = tt
  delivered-grown cs ds (r ∷ rs) h (k, ks) =
      (IsDelivered-grown received (r.record_type, r.payload) h k, delivered-grown cs ds rs h ks)

-- A record that was read, and those of the input behind it.
abbrev pub read_onward :
    (Source → List WireRecord) → Result ErrorKind (Option WireRecord) × Source → List WireRecord
read_onward later (err e, s) = []
read_onward later (ok none, s) = []
read_onward later (ok (some r), s) = r ∷ later s

-- What an input gives record by record, to its end or the first failure, in so many rounds at most.
unfoldable pub records_read : Libraries → ℕ → Source → List WireRecord
records_read lib zero s = []
records_read lib (suc rounds) s = read_onward (records_read lib rounds) (read_record lib s)

module _ {F C : Type 0} (received : C → List (RecordType × List ℕ)) where
  -- From one state to a later one that read these records between: more was received; what was
  -- acknowledged is a front part of the records, and is delivered; and the record that the resume state
  -- names is one of them and is delivered, if the state has moved.
  pub record IsSafe (read : List WireRecord) (b b' : Bridge (List ℕ) F C) : Type 0 where
    pub grown : HaveGrown received b.collectors b'.collectors
    pub done : List WireRecord
    pub left : List WireRecord
    pub split : read ≡ done ++ left
    pub acknowledged : b'.outgoing ≡ b.outgoing ++ acks done
    pub delivered : All (HasRecord received b'.collectors) done
    pub resumes :
        (b'.state.last_seq ≡ b.state.last_seq)
        ⊎ ((r : WireRecord) × Mem r read
            × (b'.state.last_seq ≡ r.seq)
            × HasRecord received b'.collectors r)

  -- Nothing was acknowledged yet.
  pub IsSafe-silent :
      (read : List WireRecord) (b b' : Bridge (List ℕ) F C)
      → HaveGrown received b.collectors b'.collectors
      → b'.outgoing ≡ b.outgoing
      → (b'.state.last_seq ≡ b.state.last_seq)
        ⊎ ((r : WireRecord) × Mem r read
            × (b'.state.last_seq ≡ r.seq)
            × HasRecord received b'.collectors r)
      → IsSafe read b b'
  IsSafe-silent read b b' grown out resumes = record {
    grown = grown;
    done = [];
    left = read;
    split = refl;
    acknowledged = out ∙ sym (append-nil b.outgoing);
    delivered = tt;
    resumes = resumes;
  }

  pub IsSafe-same :
      (read : List WireRecord) (b b' : Bridge (List ℕ) F C)
      → b'.collectors ≡ b.collectors
      → b'.outgoing ≡ b.outgoing
      → b'.state.last_seq ≡ b.state.last_seq
      → IsSafe read b b'
  IsSafe-same read b b' cs out last =
      IsSafe-silent read b b'
        (subst (HaveGrown received b.collectors) (sym cs) (HaveGrown-refl received b.collectors))
        out (inl last)

  -- What follows in the input does not matter.
  pub IsSafe-more :
      (r : WireRecord) (later : List WireRecord) (b b' : Bridge (List ℕ) F C)
      → IsSafe (r ∷ []) b b'
      → IsSafe (r ∷ later) b b'
  IsSafe-more r later b b' h = record {
    grown = h.grown;
    done = h.done;
    left = h.left ++ later;
    split = ap (λ l. l ++ later) h.split ∙ append_assoc h.done h.left later;
    acknowledged = h.acknowledged;
    delivered = h.delivered;
    resumes = wider h.resumes;
  }
    where
      wider :
          (b'.state.last_seq ≡ b.state.last_seq)
            ⊎ ((q : WireRecord) × Mem q (r ∷ [])
                × (b'.state.last_seq ≡ q.seq)
                × HasRecord received b'.collectors q)
          → (b'.state.last_seq ≡ b.state.last_seq)
            ⊎ ((q : WireRecord) × Mem q (r ∷ later)
                × (b'.state.last_seq ≡ q.seq)
                × HasRecord received b'.collectors q)
      wider (inl e) = inl e
      wider (inr (q, m, e, has)) = inr (q, mem-append_left later m, e, has)

  -- A record that is done, and what comes behind it.
  pub IsSafe-then :
      (r : WireRecord) (later : List WireRecord) (a b c : Bridge (List ℕ) F C)
      → (h : IsSafe (r ∷ []) a b) → h.left ≡ []
      → IsSafe later b c
      → IsSafe (r ∷ later) a c
  IsSafe-then r later a b c h full k = record {
    grown = HaveGrown-trans received h.grown k.grown;
    done = h.done ++ k.done;
    left = k.left;
    split =
        let first : (r ∷ []) ≡ h.done = h.split ∙ ap (λ l. h.done ++ l) full ∙ append-nil h.done in
        ap (λ l. l ++ later) first
        ∙ ap (λ l. h.done ++ l) k.split
        ∙ sym (append_assoc h.done k.done k.left);
    acknowledged =
        k.acknowledged
        ∙ ap (λ l. l ++ acks k.done) h.acknowledged
        ∙ append_assoc a.outgoing (acks h.done) (acks k.done)
        ∙ ap (λ l. a.outgoing ++ l) (sym (acks-append h.done k.done));
    delivered =
        All-append (HasRecord received c.collectors) h.done k.done
          (delivered-grown received b.collectors c.collectors h.done k.grown h.delivered)
          k.delivered;
    resumes = resumes_then h.resumes k.resumes;
  }
    where
      resumes_then :
          (b.state.last_seq ≡ a.state.last_seq)
            ⊎ ((q : WireRecord) × Mem q (r ∷ [])
                × (b.state.last_seq ≡ q.seq)
                × HasRecord received b.collectors q)
          → (c.state.last_seq ≡ b.state.last_seq)
            ⊎ ((q : WireRecord) × Mem q later
                × (c.state.last_seq ≡ q.seq)
                × HasRecord received c.collectors q)
          → (c.state.last_seq ≡ a.state.last_seq)
            ⊎ ((q : WireRecord) × Mem q (r ∷ later)
                × (c.state.last_seq ≡ q.seq)
                × HasRecord received c.collectors q)
      resumes_then x (inr (q, m, e, has)) = inr (q, mem-append_right (r ∷ []) m, e, has)
      resumes_then (inl e) (inl f) = inl (f ∙ e)
      resumes_then (inr (q, m, e, has)) (inl f) = inr (
        q,
        mem-append_left later m,
        f ∙ e,
        IsDelivered-grown received (q.record_type, q.payload) k.grown has,
      )

  -- The input that is left does not matter to it.
  pub IsSafe-read :
      (read : List WireRecord) (s : Source) (b c : Bridge (List ℕ) F C)
      → IsSafe read (record b { incoming = s }) c
      → IsSafe read b c
  IsSafe-read read s b c h = record {
    grown = h.grown;
    done = h.done;
    left = h.left;
    split = h.split;
    acknowledged = h.acknowledged;
    delivered = h.delivered;
    resumes = h.resumes;
  }
