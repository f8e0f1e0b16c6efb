-- ===== src/Spool/File/Appending.antt =====
-- `append` of `FileSpool` (logjetd/src/spool.rs) where no call fails: the spool holds one record more.
use logjet.Base.{
  ℕ, ◌+◌, ◌≤◌, ◌<◌, ◌^◌, ◌≡◌, refl, sym, ap, ◌∙◌, List, [], ◌∷◌, ◌++◌, append-nil, append_assoc,
  All, All-append, Option, none, some, length, ok, arith, Bool-cases, inl, inr, Bool,
}
use logjet.Record.{OwnedRecord}
use logjet.Codec.{Codec, Libraries}
use logjet.Writer.{push}
use logjet.Reader.State.{default_config}
use logjet.Log.Flushing.{IsFitting, IsSmall}
use logjet.Log.Pushing.{push-HasTaken}
use logjet.Spool.File.Buffered.{BufFile, write_all}
use logjet.Spool.File.State.{FileSpool, on_writer, refresh_active_size}
use logjet.Spool.File.Operations.{rotate_if, append, is_full, is_effectively_full, flush_pending}
use logjet.Spool.File.Cursor.{to_wire}
use logjet.Spool.File.Sink.{quiet, contents, file-IsSink}
use logjet.Spool.File.Holds.{
  last_seq, IsTopped, joined, config_of, default_config-IsConfig, Holds, IsOnDisk,
}
use logjet.Spool.File.Flushing.{
  Holds-writer, Holds-size, refresh_active_size-current, flush_pending-IsOnDisk,
}
use logjet.Spool.File.Rotating.{rotate-Holds}

pub joined-snoc :
    (olds : List (List OwnedRecord)) (rs : List OwnedRecord)
    → joined (olds ++ (rs ∷ [])) ≡ joined olds ++ rs
joined-snoc [] rs = append-nil rs
joined-snoc (xs ∷ olds) rs =
    ap (λ l. xs ++ l) (joined-snoc olds rs) ∙ sym (append_assoc xs (joined olds) rs)

last_seq-snoc :
    (before : Option ℕ) (rs : List OwnedRecord) (r : OwnedRecord)
    → last_seq before (rs ++ (r ∷ [])) ≡ some r.seq
last_seq-snoc before [] r = refl
last_seq-snoc before (x ∷ rs) r = last_seq-snoc (some x.seq) rs r

pub All-below :
    (m n : ℕ) (rs : List OwnedRecord) → m ≤ n → All (λ r. r.seq ≤ m) rs → All (λ r. r.seq ≤ n) rs
All-below m n [] h all = tt
All-below m n (r ∷ rs) h (hr, all) = (omega (arith, h, hr), All-below m n rs h all)

snoc_below :
    (m : ℕ) (rs : List OwnedRecord) (r : OwnedRecord)
    → m ≤ r.seq
    → All (λ x. x.seq ≤ m) rs
    → All (λ x. x.seq ≤ r.seq) (rs ++ (r ∷ []))
snoc_below m rs r h all =
    All-append (λ (x : OwnedRecord). x.seq ≤ r.seq) rs (r ∷ []) (All-below m r.seq rs h all)
      (omega arith, tt)

snoc-IsTopped :
    (m : ℕ) (rs : List OwnedRecord) (r : OwnedRecord)
    → m ≤ r.seq
    → All (λ x. x.seq ≤ m) rs
    → IsTopped (rs ++ (r ∷ []))
snoc-IsTopped m rs r h all = record {
  below = λ n e.
      All-below r.seq n (rs ++ (r ∷ []))
        (let same : some r.seq ≡ some n = sym (last_seq-snoc none rs r) ∙ e in ground arith)
        (snoc_below m rs r h all);
}

module _ (lib : Libraries) (codec : Codec) (alignment capacity rounds : ℕ)
    (fitting : IsFitting lib (config_of codec alignment) default_config) where
  -- The spool holds these records, older segments first.
  pub record Held (seq ts : ℕ) (records : List OwnedRecord) (s : FileSpool) : Type 0 where
    pub olds : List (List OwnedRecord)
    pub now : List OwnedRecord
    pub holds : Holds lib codec alignment capacity fitting seq ts olds now s
    pub records_are : joined olds ++ now ≡ records

  -- A step that keeps what has been consumed, with at most so many new segments.
  pub record Continues (more : ℕ) (s s' : FileSpool) : Type 0 where
    pub consumed : s'.consumed_through_seq ≡ s.consumed_through_seq
    pub id : s'.active_segment_id ≤ s.active_segment_id + more

  rotate_if-Held :
      (full : FileSpool → Bool) (seq ts : ℕ) (records : List OwnedRecord) (s : FileSpool)
      → Held seq ts records s
      → s.active_segment_id + 1 < 2 ^ 64
      → (s' : FileSpool) × (rotate_if lib capacity quiet rounds full s ≡ (ok tt, s'))
        × Held seq ts records s'
        × Continues 1 s s'
  rotate_if-Held full seq ts records s h fits = elim (Bool-cases (full s)) [
    | inl e ↦
        let (s', rotated, holds, consumed, id) =
          rotate-Holds lib codec alignment capacity rounds fitting seq ts h.olds h.now s h.holds
            fits in
        (
          s',
          rw e rotated,
          record {
            olds = h.olds ++ (h.now ∷ []);
            now = [];
            holds = holds;
            records_are =
                append-nil (joined (h.olds ++ (h.now ∷ [])))
                ∙ joined-snoc h.olds h.now
                ∙ h.records_are;
          },
          record { consumed = consumed; id = omega (arith, id) },
        )
    | inr e ↦ (s, rw e refl, h, record { consumed = refl; id = omega arith })
  ]

  -- The push and the measurement after it.
  pushed-Held :
      (seq ts : ℕ) (records : List OwnedRecord) (r : OwnedRecord) (s : FileSpool)
      → Held seq ts records s
      → IsSmall fitting.most r
      → seq ≤ r.seq
      → ts ≤ r.ts_unix_ns
      → (s₁ : FileSpool) × (s' : FileSpool) × (on_writer quiet
            (push lib (write_all quiet capacity) r.record_type r.seq r.ts_unix_ns r.payload)
            s
          ≡ (ok tt, s₁))
        × (refresh_active_size s₁ ≡ (ok tt, s'))
        × Held r.seq r.ts_unix_ns (records ++ (r ∷ [])) s'
        × Continues 0 s s'
  unfolding on_writer
  pushed-Held seq ts records r s h small hs ht =
      let (w, pushed, taken) =
        push-HasTaken lib BufFile (write_all quiet capacity) contents (file-IsSink capacity)
          (config_of codec alignment) default_config default_config-IsConfig fitting seq ts h.now r
          s.active_writer small hs ht h.holds.taken in
      let holds =
        Holds-writer lib codec alignment capacity rounds fitting seq ts r.seq r.ts_unix_ns h.olds
          h.now (h.now ++ (r ∷ [])) s w h.holds taken (snoc_below seq h.now r hs h.holds.below)
          (snoc-IsTopped seq h.now r hs h.holds.below) in
      let s₁ : FileSpool = record s { active_writer = w } in
      (
        s₁,
        record s₁ { active_size_bytes = length w.inner.bytes },
        rw pushed refl,
        refresh_active_size-current lib codec alignment capacity rounds fitting r.seq r.ts_unix_ns
            h.olds (h.now ++ (r ∷ [])) s₁ holds,
        record {
          olds = h.olds;
          now = h.now ++ (r ∷ []);
          holds =
              Holds-size lib codec alignment capacity rounds fitting r.seq r.ts_unix_ns
                (length w.inner.bytes) h.olds (h.now ++ (r ∷ [])) s₁ holds;
          records_are =
              sym (append_assoc (joined h.olds) h.now (r ∷ []))
              ∙ ap (λ l. l ++ (r ∷ [])) h.records_are;
        },
        record { consumed = refl; id = omega arith },
      )

  -- `append` succeeds, and the spool holds the record behind the others.
  pub append-Held :
      (seq ts : ℕ) (records : List OwnedRecord) (r : OwnedRecord) (s : FileSpool)
      → Held seq ts records s
      → IsSmall fitting.most r
      → seq ≤ r.seq
      → ts ≤ r.ts_unix_ns
      → s.active_segment_id + 2 < 2 ^ 64
      → (s' : FileSpool) × (append lib capacity quiet rounds (to_wire r) s ≡ (ok tt, s'))
        × Held r.seq r.ts_unix_ns (records ++ (r ∷ [])) s'
        × Continues 2 s s'
  unfolding append
  append-Held seq ts records r s h small hs ht fits =
      let (s₁, first, h₁, c₁) = rotate_if-Held is_full seq ts records s h (omega (arith, fits)) in
      let (s₂, s₃, pushed, measured, h₃, c₃) = pushed-Held seq ts records r s₁ h₁ small hs ht in
      let (s₄, second, h₄, c₄) =
        rotate_if-Held is_effectively_full r.seq r.ts_unix_ns (records ++ (r ∷ [])) s₃ h₃
          (omega (arith, fits, c₁.id, c₃.id)) in
      (
        s₄,
        rw (first, pushed, measured) second,
        h₄,
        record {
          consumed = c₄.consumed ∙ c₃.consumed ∙ c₁.consumed;
          id = omega (arith, c₁.id, c₃.id, c₄.id);
        },
      )

  -- `flush_pending` succeeds and keeps what the spool holds, all of it on disk.
  pub flush_pending-Held :
      (seq ts : ℕ) (records : List OwnedRecord) (s : FileSpool)
      → Held seq ts records s
      → (s' : FileSpool) × (h : Held seq ts records s') × (flush_pending lib capacity quiet rounds s
          ≡ (ok tt, s'))
        × IsOnDisk lib codec alignment capacity fitting h.now s'.active_writer
        × Continues 0 s s'
  flush_pending-Held seq ts records s h =
      let (s', flushed, holds, on_disk, consumed, id) =
        flush_pending-IsOnDisk lib codec alignment capacity rounds fitting seq ts h.olds h.now s
          h.holds in
      (
        s',
        record { olds = h.olds; now = h.now; holds = holds; records_are = h.records_are },
        flushed,
        on_disk,
        record { consumed = consumed; id = omega (arith, id) },
      )
