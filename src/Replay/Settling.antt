-- ===== src/Replay/Settling.antt =====
-- `flush_ready_results` of logjetd/src/replay.rs acknowledges in order, and only what was settled.
use logjet.Base.{
  ℕ, ◌≡◌, refl, sym, ap, ◌∙◌, Bool, List, [], ◌∷◌, ◌++◌, append-nil, append_assoc, Option, Result,
  ok, err,
}
use logjet.Base.Exec.{Exec, continue, ◌>>◌}
use logjet.Error.{ErrorKind}
use logjet.Protocol.Replay.{write_replay_ack}
use logjet.Protocol.ReplayAhead.{ack_bytes}
use logjet.Replay.Collectors.{Connector}
use logjet.Replay.Bridge.{Bridge, Setup, commit_record, acknowledge, write_bridge_state}
use logjet.Replay.Results.{
  ExportResult, PendingExport, queued, dropped, ResultChannel, front_result, Exporting, on_bridge,
  settle, settle_found, flush_rounds, flush_ready_results,
}
use logjet.Replay.Acknowledged.{draining}
use logjet.Replay.Fronts.{
  seq_of, seq_acks, waiting, Settled, nothing, drops, delivers, Fronted, front_error, front_none,
  front_dropped, front_queued, front_result-Fronted,
}

module _ {F C : Type 0} where
  -- What a flush has done, from one state to a later one: some front part of `pending` was settled by
  -- the results that waited first, and acknowledged; `others` and `later` are what follows them.
  pub record IsFlushed (pending : List PendingExport) (s s' : Exporting (List ℕ) F C) : Type 0 where
    pub done : List PendingExport
    pub others : List PendingExport
    pub used : List ExportResult
    pub later : List ExportResult
    pub front : pending ≡ done ++ others
    pub first : waiting s.results ≡ used ++ later
    pub settled : Settled done used
    pub acknowledged : s'.bridge.outgoing ≡ s.bridge.outgoing ++ seq_acks done

  IsFlushed-none :
      (pending : List PendingExport) (s s' : Exporting (List ℕ) F C)
      → s'.bridge.outgoing ≡ s.bridge.outgoing
      → IsFlushed pending s s'
  IsFlushed-none pending s s' out = record {
    done = [];
    others = pending;
    used = [];
    later = waiting s.results;
    front = refl;
    first = refl;
    settled = nothing;
    acknowledged = out ∙ sym (append-nil s.bridge.outgoing);
  }

  -- One more export settled, by these results.
  IsFlushed-cons :
      (p : PendingExport) (pending : List PendingExport) (used : List ExportResult)
      (s m s' : Exporting (List ℕ) F C)
      → ((ps : List PendingExport) (rs : List ExportResult)
          → Settled ps rs
          → Settled (p ∷ ps) (used ++ rs))
      → waiting s.results ≡ used ++ waiting m.results
      → m.bridge.outgoing ≡ s.bridge.outgoing ++ ack_bytes (seq_of p)
      → IsFlushed pending m s'
      → IsFlushed (p ∷ pending) s s'
  IsFlushed-cons p pending used s m s' settles at out h = record {
    done = p ∷ h.done;
    others = h.others;
    used = used ++ h.used;
    later = h.later;
    front = ap (λ l. p ∷ l) h.front;
    first = at ∙ ap (λ l. used ++ l) h.first ∙ sym (append_assoc used h.used h.later);
    settled = settles h.done h.used h.settled;
    acknowledged =
        h.acknowledged
        ∙ ap (λ l. l ++ seq_acks h.done) out
        ∙ append_assoc s.bridge.outgoing (ack_bytes (seq_of p)) (seq_acks h.done);
  }

  -- A commit acknowledges, or fails before it does.
  data Committed (seq : ℕ) (b : Bridge (List ℕ) F C)
      : Result ErrorKind (Unit {0}) × Bridge (List ℕ) F C → Type 0 where
    commit_error :
        (e : ErrorKind) (b' : Bridge (List ℕ) F C)
        → b'.outgoing ≡ b.outgoing
        → Committed seq b (err e, b')
    commit_ok :
        (b' : Bridge (List ℕ) F C)
        → b'.outgoing ≡ b.outgoing ++ ack_bytes seq
        → Committed seq b (ok tt, b')

module _ {F C : Type 0} (state_file : Bool) (write_file : List ℕ → Exec F ErrorKind (Unit {0}))
    (connector : Connector C) (open_connection : Result ErrorKind (List C)) where
  abbrev setup : Setup (List ℕ) F C
  setup = draining state_file write_file connector open_connection

  commit_record-Committed :
      (seq : ℕ) (b : Bridge (List ℕ) F C) → Committed seq b (commit_record setup seq b)
  unfolding commit_record acknowledge write_replay_ack write_bridge_state
  commit_record-Committed seq b =
      by_saved (write_bridge_state setup (record b { state = record b.state { last_seq = seq } }))
        refl
    where
      by_saved :
          (saved : Result ErrorKind (Unit {0}) × Bridge (List ℕ) F C)
          → saved.1.outgoing ≡ b.outgoing
          → Committed seq b (continue saved.0 (λ u. acknowledge setup seq) saved.1)
      by_saved (ok u, m) same =
          commit_ok (record m { outgoing = m.outgoing ++ ack_bytes seq })
            (ap (λ o. o ++ ack_bytes seq) same)
      by_saved (err e, m) same = commit_error e m same

  -- The commit of a front that succeeded, and the rounds behind it.
  commit-IsFlushed :
      (p : PendingExport) (pending : List PendingExport) (used : List ExportResult)
      (s m : Exporting (List ℕ) F C)
      → ((ps : List PendingExport) (rs : List ExportResult)
          → Settled ps rs
          → Settled (p ∷ ps) (used ++ rs))
      → waiting s.results ≡ used ++ waiting m.results
      → m.bridge.outgoing ≡ s.bridge.outgoing
      → (again : Exec (Exporting (List ℕ) F C) ErrorKind (Unit {0}))
      → ((t : Exporting (List ℕ) F C) → IsFlushed pending t (again t).1)
      → IsFlushed (p ∷ pending) s ((on_bridge (commit_record setup (seq_of p)) >> again) m).1
  commit-IsFlushed p pending used s m settles at out again h =
      by_commit (commit_record setup (seq_of p) m.bridge)
        (commit_record-Committed (seq_of p) m.bridge)
    where
      by_commit :
          (o : Result ErrorKind (Unit {0}) × Bridge (List ℕ) F C)
          → Committed (seq_of p) m.bridge o
          → IsFlushed (p ∷ pending) s (continue o.0 (λ u. again) (record m { bridge = o.1 })).1
      by_commit _ (commit_error e b' same) =
          IsFlushed-none (p ∷ pending) s (record m { bridge = b' }) (same ∙ out)
      by_commit _ (commit_ok b' acked) =
          IsFlushed-cons p pending used s (record m { bridge = b' })
            (again (record m { bridge = b' })).1 settles at
            (acked ∙ ap (λ o. o ++ ack_bytes (seq_of p)) out) (h (record m { bridge = b' }))

  flush_rounds-IsFlushed :
      (block : Bool) (pending : List PendingExport) (s : Exporting (List ℕ) F C)
      → IsFlushed pending s (flush_rounds setup block pending s).1
  unfolding flush_rounds settle
  flush_rounds-IsFlushed block [] s = IsFlushed-none [] s s refl
  flush_rounds-IsFlushed block (front ∷ rest) s =
      by_front (flush_rounds setup block rest) (flush_rounds-IsFlushed block rest) front
        (front_result block front s.results) (front_result-Fronted block front s.results)
    where
      by_front :
          (again : Exec (Exporting (List ℕ) F C) ErrorKind (Unit {0}))
          → ((t : Exporting (List ℕ) F C) → IsFlushed rest t (again t).1)
          → (p : PendingExport) (o : Result ErrorKind (Option ExportResult) × ResultChannel)
          → Fronted s.results p o
          → IsFlushed
              (p ∷ rest)
              s
              (continue o.0 (settle_found setup rest again) (record s { results = o.1 })).1
      by_front again h p _ (front_error _ e ch') =
          IsFlushed-none (p ∷ rest) s (record s { results = ch' }) refl
      by_front again h p _ (front_none _ ch') =
          IsFlushed-none (p ∷ rest) s (record s { results = ch' }) refl
      by_front again h _ _ (front_dropped seq outcome) =
          commit-IsFlushed (dropped seq) rest [] s (record s { pending = rest })
            (λ ps rs h. drops seq h) refl refl again h
      by_front again h _ _ (front_queued seq (ok outcome) ch' at) =
          commit-IsFlushed (queued seq) rest (record { seq = seq; outcome = ok outcome } ∷ []) s
            (record s { pending = rest; results = ch' }) (λ ps rs h. delivers seq outcome h) at refl
            again h
      by_front again h _ _ (front_queued seq (err e) ch' at) =
          IsFlushed-none (queued seq ∷ rest) s (record s { pending = rest; results = ch' }) refl

  -- Acknowledgements go out in order, and none before its export was settled: whatever the worker sends,
  -- whether the flush waits or not, and whether it ends with an error or not, what `flush_ready_results`
  -- of a draining bridge sends is the acknowledgements of some front part of `pending`, in order, in
  -- which every queued export has, in order, one of the first results that the worker sent, a success
  -- under its own number, and every other one was dropped when it was queued.
  pub flush_ready_results-IsFlushed :
      (block : Bool) (s : Exporting (List ℕ) F C)
      → IsFlushed s.pending s (flush_ready_results setup block s).1
  unfolding flush_ready_results
  flush_ready_results-IsFlushed block s = flush_rounds-IsFlushed block s.pending s
