-- ===== src/Log/Pushing.antt =====
-- `push` of src/writer.rs, call after call: what the sink and the open block hold.
use logjet.Base.{
  ℕ, ◌+◌, ◌-◌, ◌≤◌, ◌<◌, ◌^◌, ◌≡◌, ◌≢◌, refl, sym, ap, ◌∙◌, subst, List, [], ◌∷◌, ◌++◌,
  append_assoc, length, length-append, Result, ok, arith, All-append, false, leb, ltb, not, ◌&&◌,
  Bool-cases, inl, inr, checked_add-fits, checked_add_u32-fits, checked_sub-fits, if◌then◌else◌,
}
use logjet.Base.Exec.{pure, ◌>>=◌}
use logjet.Error.{ErrorKind, Error}
use logjet.Record.{OwnedRecord}
use logjet.Codec.{Libraries}
use logjet.Format.{BlockHeaderExt}
use logjet.Writer.{
  WriterConfig, LogjetWriter, with_config, is_empty, encode_record, bases_or_set, flush_block,
  roll_over, add_encoded, push,
}
use logjet.Reader.State.{ReaderConfig}
use logjet.Log.Payload.{payload_of, payload_of-snoc, encoded, length-encoded, IsAbove}
use logjet.Log.Block.{Block, IsConfig}
use logjet.Log.File.{records_of}
use logjet.Log.Sink.{IsSink}
use logjet.Log.Flushing.{
  IsFitting, IsSmall, length-payload_of, is_empty-long, long_enough, open_block, IsOpen, IsStored,
  HasTaken, closed, filling, flush_block-buffering,
}

module _ (lib : Libraries) (W : Type 0) (write_all : List ℕ → W → Result ErrorKind (Unit {0}) × W)
    (contents : W → List ℕ) (sink : IsSink W write_all contents) (wc : WriterConfig)
    (rc : ReaderConfig) (config_ok : IsConfig rc) (fitting : IsFitting lib wc rc) where
  abbrev opened : W → BlockHeaderExt → List OwnedRecord → LogjetWriter W
  opened inner ext pending =
      open_block lib W write_all contents sink wc rc config_ok fitting inner ext pending

  abbrev pub Taken : ℕ → ℕ → List OwnedRecord → LogjetWriter W → Type 0
  Taken seq ts records w =
      HasTaken lib W write_all contents sink wc rc config_ok fitting seq ts records w

  abbrev Stored : List Block → W → Type 0
  Stored blocks inner = IsStored lib W write_all contents sink wc rc config_ok fitting blocks inner

  abbrev Open : ℕ → ℕ → BlockHeaderExt → List OwnedRecord → Type 0
  Open seq ts ext pending =
      IsOpen lib W write_all contents sink wc rc config_ok fitting seq ts ext pending

  -- The end of `add_encoded`.
  abbrev settle : LogjetWriter W → Result Error (Unit {0}) × LogjetWriter W
  settle w =
      (if leb w.config.block_target_size (length w.payload_buf)
          then flush_block lib write_all
          else pure tt)
        w

  add_encoded-opened :
      (inner : W) (ext : BlockHeaderExt) (pending : List OwnedRecord) (r : OwnedRecord)
      → length pending + 1 < 2 ^ 32
      → add_encoded lib write_all (encoded ext r) (opened inner ext pending)
        ≡ settle (opened inner ext (pending ++ (r ∷ [])))
  unfolding add_encoded
  add_encoded-opened inner ext pending r h = rw (checked_add_u32-fits (length pending) 1 h) (λ i.
      settle (record (opened inner ext pending) {
        payload_buf = sym (payload_of-snoc ext pending r) i;
        record_count = sym (length-append pending (r ∷ [])) i;
      }))

  module _ (seq ts : ℕ) (blocks : List Block) (inner : W) (ext : BlockHeaderExt)
      (stored : Stored blocks inner) where
    settle-HasTaken :
        (pending : List OwnedRecord)
        → pending ≢ []
        → Open seq ts ext pending
        → (w : LogjetWriter W) × (settle (opened inner ext pending) ≡ (ok tt, w))
          × Taken seq ts (records_of blocks ++ pending) w
    settle-HasTaken pending nonempty open_ok =
        elim (Bool-cases (leb wc.block_target_size (length (payload_of ext pending)))) [
          | inl full ↦
              let (blocks', inner', flushed, stored', records) =
                flush_block-buffering lib W write_all contents sink wc rc config_ok fitting seq ts
                  blocks inner ext pending stored nonempty open_ok in
              (with_config inner' wc, rw full flushed, closed blocks' inner' stored' records)
          | inr room ↦ (
            opened inner ext pending,
            rw room refl,
            filling blocks inner ext pending stored refl nonempty open_ok,
          )
        ]

    add-HasTaken :
        (pending : List OwnedRecord) (r : OwnedRecord)
        → Open seq ts ext (pending ++ (r ∷ []))
        → (w : LogjetWriter W) × (add_encoded lib write_all
              (encoded ext r)
              (opened inner ext pending)
            ≡ (ok tt, w))
          × Taken seq ts (records_of blocks ++ (pending ++ (r ∷ []))) w
    add-HasTaken pending r open_ok =
        let (w, settled, taken) =
          settle-HasTaken (pending ++ (r ∷ [])) (snoc_nonempty pending r) open_ok in
        (w, add_encoded-opened inner ext pending r count ∙ settled, taken)
      where
        snoc_nonempty : (rs : List OwnedRecord) (x : OwnedRecord) → rs ++ (x ∷ []) ≢ []
        snoc_nonempty [] x e = cc
        snoc_nonempty (y ∷ ys) x e = cc

        count : length pending + 1 < 2 ^ 32
        count = omega (
          arith,
          length-append pending (r ∷ []),
          length-payload_of ext (pending ++ (r ∷ [])) open_ok.above,
          open_ok.fits,
          config_ok.uncompressed,
          fitting.most_ok,
        )

  -- The record opens a block of its own.
  abbrev ext_for : OwnedRecord → BlockHeaderExt
  ext_for r = record { base_seq = r.seq; base_ts_unix_ns = r.ts_unix_ns }

  alone-Open :
      (r : OwnedRecord) → IsSmall fitting.most r → Open r.seq r.ts_unix_ns (ext_for r) (r ∷ [])
  unfolding payload_of
  alone-Open r small = record {
    base_seq = omega arith;
    base_ts = omega arith;
    seq_u64 = small.in_range.seq;
    ts_u64 = small.in_range.ts_unix_ns;
    above = (record { in_range = small.in_range; seq = omega arith; ts = omega arith }, tt);
    fits = omega (
      arith,
      small.size,
      length-encoded (ext_for r) r small.in_range,
      length-append (encoded (ext_for r) r) [],
    );
  }

  abbrev push_record : OwnedRecord → LogjetWriter W → Result Error (Unit {0}) × LogjetWriter W
  push_record r w = push lib write_all r.record_type r.seq r.ts_unix_ns r.payload w

  encoded_bound :
      (ext : BlockHeaderExt) (r : OwnedRecord) (before : ℕ)
      → IsSmall fitting.most r
      → before < 2 ^ 32
      → before + length (encoded ext r) < 2 ^ 64
  encoded_bound ext r before small h = omega (
    arith,
    length-encoded ext r small.in_range,
    small.size,
    config_ok.uncompressed,
    fitting.most_ok,
  )

  push-closed :
      (r : OwnedRecord) (inner : W)
      → IsSmall fitting.most r
      → push_record r (with_config inner wc)
        ≡ add_encoded lib write_all (encoded (ext_for r) r) (opened inner (ext_for r) [])
  unfolding push bases_or_set with_config encoded payload_of
  push-closed r inner small = rw (checked_sub-fits r.seq r.seq (omega arith)) (
      rw (checked_sub-fits r.ts_unix_ns r.ts_unix_ns (omega arith)) (
        rw
          (checked_add-fits 0 (length (encoded (ext_for r) r))
            (encoded_bound (ext_for r) r 0 small (omega arith)))
          refl))

  module _ (r : OwnedRecord) (inner : W) (ext : BlockHeaderExt) (pending : List OwnedRecord)
      (small : IsSmall fitting.most r) (seq_ok : ext.base_seq ≤ r.seq)
      (ts_ok : ext.base_ts_unix_ns ≤ r.ts_unix_ns)
      (payload_fits : length (payload_of ext pending) ≤ fitting.most) where
    -- `push` once the deltas are known.
    abbrev after_projection : Result Error (Unit {0}) × LogjetWriter W
    after_projection =
        ((if not (is_empty (payload_of ext pending))
                && ltb wc.block_target_size
                    (length (payload_of ext pending) + length (encoded ext r))
              then roll_over lib write_all r.record_type r.seq r.ts_unix_ns r.payload
              else pure (encoded ext r))
            >>= (λ bytes. add_encoded lib write_all bytes))
          (opened inner ext pending)

    push-opened : push_record r (opened inner ext pending) ≡ after_projection
    unfolding push bases_or_set encoded
    push-opened = rw (checked_sub-fits r.seq ext.base_seq seq_ok) (
        rw (checked_sub-fits r.ts_unix_ns ext.base_ts_unix_ns ts_ok) (
          rw
            (checked_add-fits (length (payload_of ext pending)) (length (encoded ext r)) (
              encoded_bound ext r (length (payload_of ext pending)) small
                (omega (arith, payload_fits, config_ok.uncompressed, fitting.most_ok))))
            refl))

    roll_over-opened :
        (inner' : W)
        → flush_block lib write_all (opened inner ext pending) ≡ (ok tt, with_config inner' wc)
        → roll_over lib write_all r.record_type r.seq r.ts_unix_ns r.payload
            (opened inner ext pending)
          ≡ (ok (encoded (ext_for r) r), opened inner' (ext_for r) [])
    unfolding roll_over encoded payload_of with_config
    roll_over-opened inner' flushed = rw flushed (λ i. (
      ok (encode_record r.record_type (seq_delta i) (ts_delta i) r.payload),
      opened inner' (ext_for r) [],
    ))
      where
        seq_delta : 0 ≡ r.seq - r.seq
        seq_delta = omega arith

        ts_delta : 0 ≡ r.ts_unix_ns - r.ts_unix_ns
        ts_delta = omega arith

  -- A record that joins the open block leaves its payload within the target size.
  joined-Open :
      (seq ts : ℕ) (r : OwnedRecord) (ext : BlockHeaderExt) (pending : List OwnedRecord)
      → IsSmall fitting.most r
      → seq ≤ r.seq
      → ts ≤ r.ts_unix_ns
      → pending ≢ []
      → Open seq ts ext pending
      → (not (is_empty (payload_of ext pending))
          && ltb wc.block_target_size (length (payload_of ext pending) + length (encoded ext r)))
        ≡ false
      → Open r.seq r.ts_unix_ns ext (pending ++ (r ∷ []))
  joined-Open seq ts r ext pending small hs ht nonempty open_ok room = record {
    base_seq = omega (arith, open_ok.base_seq);
    base_ts = omega (arith, open_ok.base_ts);
    seq_u64 = small.in_range.seq;
    ts_u64 = small.in_range.ts_unix_ns;
    above = All-append (IsAbove ext) pending (r ∷ []) open_ok.above (
      record {
        in_range = small.in_range;
        seq = omega (arith, open_ok.base_seq);
        ts = omega (arith, open_ok.base_ts);
      },
      tt,
    );
    fits = omega (
      arith,
      within,
      fitting.target,
      ap length (payload_of-snoc ext pending r),
      length-append (payload_of ext pending) (encoded ext r),
    );
  }
    where
      some_bytes : is_empty (payload_of ext pending) ≡ false
      some_bytes =
          is_empty-long (payload_of ext pending) (
            omega
              (arith, length-payload_of ext pending open_ok.above, long_enough pending nonempty))

      within : length (payload_of ext pending) + length (encoded ext r) ≤ wc.block_target_size
      within = ground (arith, some_bytes, room)

  -- A `push` after records up to `seq` and `ts` succeeds, and its record is the last one taken.
  pub push-HasTaken :
      (seq ts : ℕ) (records : List OwnedRecord) (r : OwnedRecord) (w : LogjetWriter W)
      → IsSmall fitting.most r
      → seq ≤ r.seq
      → ts ≤ r.ts_unix_ns
      → Taken seq ts records w
      → (w' : LogjetWriter W) × (push_record r w ≡ (ok tt, w'))
        × Taken r.seq r.ts_unix_ns (records ++ (r ∷ [])) w'
  push-HasTaken seq ts records r _ small hs ht (closed blocks inner stored taken) =
      let (w', added, after) =
        add-HasTaken r.seq r.ts_unix_ns blocks inner (ext_for r) stored [] r (alone-Open r small) in
      (
        w',
        push-closed r inner small ∙ added,
        subst (λ rs. Taken r.seq r.ts_unix_ns (rs ++ (r ∷ [])) w') taken after,
      )
  push-HasTaken seq ts records r _ small hs ht
        (filling blocks inner ext pending stored taken nonempty open_ok) =
      let payload = payload_of ext pending in
      let full =
        not (is_empty payload)
        && ltb wc.block_target_size (length payload + length (encoded ext r)) in
      let pushed =
        push-opened r inner ext pending small (omega (arith, open_ok.base_seq, hs))
          (omega (arith, open_ok.base_ts, ht)) open_ok.fits in
      elim (Bool-cases full) [
        | inl overflows ↦
            let (blocks', inner', flushed, stored', records') =
              flush_block-buffering lib W write_all contents sink wc rc config_ok fitting seq ts
                blocks inner ext pending stored nonempty open_ok in
            let (w', added, after) =
              add-HasTaken r.seq r.ts_unix_ns blocks' inner' (ext_for r) stored' [] r
                (alone-Open r small) in
            (
              w',
              pushed
                  ∙ rw overflows (
                      rw
                        (roll_over-opened r inner ext pending small
                          (omega (arith, open_ok.base_seq, hs)) (omega (arith, open_ok.base_ts, ht))
                          open_ok.fits inner' flushed)
                        added),
              subst (λ rs. Taken r.seq r.ts_unix_ns (rs ++ (r ∷ [])) w') (records' ∙ taken) after,
            )
        | inr room ↦
            let (w', added, after) =
              add-HasTaken r.seq r.ts_unix_ns blocks inner ext stored pending r
                (joined-Open seq ts r ext pending small hs ht nonempty open_ok room) in
            (
              w',
              pushed ∙ rw room added,
              subst (λ rs. Taken r.seq r.ts_unix_ns rs w')
                  (sym (append_assoc (records_of blocks) pending (r ∷ []))
                    ∙ ap (λ rs. rs ++ (r ∷ [])) taken)
                  after,
            )
      ]
