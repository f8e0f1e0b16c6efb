-- ===== src/Log/Payload.antt =====
-- A block's payload: the records that src/writer.rs encodes, parsed again by src/reader.rs.
use logjet.Base.{
  ℕ, ◌+◌, ◌-◌, ◌≤◌, ◌<◌, ◌^◌, ◌≡◌, refl, sym, ap, ◌∙◌, List, [], ◌∷◌, ◌++◌, append_assoc,
  append-nil, All, length, length-append, take-append, drop-append, arith, ok, IsU64,
  checked_add-fits, le→ltb,
}
use logjet.Record
use logjet.Record.{RecordType, OwnedRecord, IsRecord, from_u8-as_u8}
use logjet.Format.{BlockHeaderExt}
use logjet.Varint.RoundTrip.{groups, length-groups, encode_varint-groups, decode_varint-groups}
use logjet.Writer.{encode_record}
use logjet.Reader.Parse.{first_byte, parse_record, parse_loop, no_trailing, parse_records}

encode_record-groups :
    (t : RecordType) (seq_delta ts_delta : ℕ) (payload : List ℕ)
    → IsU64 seq_delta
    → IsU64 ts_delta
    → IsU64 (length payload)
    → encode_record t seq_delta ts_delta payload
      ≡ Record.as_u8 t
        ∷ (groups 9 seq_delta ++ (groups 9 ts_delta ++ (groups 9 (length payload) ++ payload)))
unfolding encode_record
encode_record-groups t seq_delta ts_delta payload hs ht hp =
    rw (encode_varint-groups seq_delta (Record.as_u8 t ∷ []) hs) (
      rw (encode_varint-groups ts_delta (Record.as_u8 t ∷ groups 9 seq_delta) ht) (
        rw
          (encode_varint-groups (length payload)
            (Record.as_u8 t ∷ (groups 9 seq_delta ++ groups 9 ts_delta)) hp)
          (simp append_assoc)))

-- The record as the block with these bases holds it.
unfoldable pub encoded : BlockHeaderExt → OwnedRecord → List ℕ
encoded ext r =
    encode_record r.record_type (r.seq - ext.base_seq) (r.ts_unix_ns - ext.base_ts_unix_ns)
      r.payload

-- A record that a block with these bases can hold.
pub record IsAbove (ext : BlockHeaderExt) (r : OwnedRecord) : Type 0 where
  pub in_range : IsRecord r
  pub seq : ext.base_seq ≤ r.seq
  pub ts : ext.base_ts_unix_ns ≤ r.ts_unix_ns

module _ (ext : BlockHeaderExt) (t : RecordType) (sd td : ℕ) (payload rest : List ℕ)
    (total : ℕ) where
  abbrev fields : List ℕ
  fields = groups 9 sd ++ (groups 9 td ++ (groups 9 (length payload) ++ (payload ++ rest)))

  parse_record-fields :
      IsU64 sd
      → IsU64 td
      → IsU64 (length payload)
      → IsU64 (ext.base_seq + sd)
      → IsU64 (ext.base_ts_unix_ns + td)
      → length (payload ++ rest) ≤ total
      → IsU64 total
      → parse_record total ext (Record.as_u8 t ∷ fields)
        ≡ ok (
          record {
            record_type = t;
            seq = ext.base_seq + sd;
            ts_unix_ns = ext.base_ts_unix_ns + td;
            payload = payload;
          },
          rest,
        )
  unfolding parse_record first_byte
  parse_record-fields hs ht hp hseq hts fits small = rw from_u8-as_u8 (
      rw (decode_varint-groups sd _ hs) (
        rw (decode_varint-groups td _ ht) (
          rw (decode_varint-groups (length payload) _ hp) (
            rw (checked_add-fits (total - length (payload ++ rest)) (length payload) end_small) (
              rw (le→ltb total (total - length (payload ++ rest) + length payload) inside) (
                rw (checked_add-fits ext.base_seq sd hseq) (
                  rw (checked_add-fits ext.base_ts_unix_ns td hts)
                    (rw (take-append payload rest) (rw (drop-append payload rest))))))))))
    where
      inside : total - length (payload ++ rest) + length payload ≤ total
      inside = omega (arith, length-append payload rest)

      end_small : total - length (payload ++ rest) + length payload < 2 ^ 64
      end_small = omega (arith, inside)

-- Three varints of at most ten bytes stand before a record's payload.
pub length-encoded :
    (ext : BlockHeaderExt) (r : OwnedRecord)
    → IsRecord r
    → (4 ≤ length (encoded ext r)) × (length (encoded ext r) ≤ length r.payload + 31)
unfolding encoded
length-encoded ext r in_range =
    let seq_delta = r.seq - ext.base_seq in
    let ts_delta = r.ts_unix_ns - ext.base_ts_unix_ns in
    let size = length r.payload in
    omega (
      arith,
      in_range.seq,
      ap length (
          encode_record-groups r.record_type seq_delta ts_delta r.payload
            (omega (arith, in_range.seq)) (omega (arith, in_range.ts_unix_ns)) in_range.payload),
      length-append (groups 9 seq_delta) (groups 9 ts_delta ++ (groups 9 size ++ r.payload)),
      length-append (groups 9 ts_delta) (groups 9 size ++ r.payload),
      length-append (groups 9 size) r.payload,
      length-groups seq_delta,
      length-groups ts_delta,
      length-groups size,
    )

-- A record that the block can hold parses from its encoding, whatever follows.
parse_record-encoded :
    (ext : BlockHeaderExt) (r : OwnedRecord) (total : ℕ) (rest : List ℕ)
    → IsAbove ext r
    → length (encoded ext r ++ rest) ≤ total
    → IsU64 total
    → parse_record total ext (encoded ext r ++ rest) ≡ ok (r, rest)
unfolding encoded
parse_record-encoded ext r total rest above fits small =
    ap (parse_record total ext) bytes
    ∙ parse_record-fields ext r.record_type sd td r.payload rest total (omega arith) (omega arith)
        above.in_range.payload (omega (arith, seq_back)) (omega (arith, ts_back)) room small
    ∙ λ i. ok (record r { seq = seq_back i; ts_unix_ns = ts_back i }, rest)
  where
    sd : ℕ
    sd = r.seq - ext.base_seq

    td : ℕ
    td = r.ts_unix_ns - ext.base_ts_unix_ns

    bytes :
        encoded ext r ++ rest
        ≡ Record.as_u8 r.record_type ∷ fields ext r.record_type sd td r.payload rest total
    bytes =
        ap (λ e. e ++ rest)
          (encode_record-groups r.record_type sd td r.payload (omega arith) (omega arith)
            above.in_range.payload)
        ∙ simp append_assoc

    seq_back : ext.base_seq + (r.seq - ext.base_seq) ≡ r.seq
    seq_back = omega arith

    ts_back : ext.base_ts_unix_ns + (r.ts_unix_ns - ext.base_ts_unix_ns) ≡ r.ts_unix_ns
    ts_back = omega arith

    room : length (r.payload ++ rest) ≤ total
    room = omega (
      arith,
      ap length bytes,
      length-append (groups 9 sd)
          (groups 9 td ++ (groups 9 (length r.payload) ++ (r.payload ++ rest))),
      length-append (groups 9 td) (groups 9 (length r.payload) ++ (r.payload ++ rest)),
      length-append (groups 9 (length r.payload)) (r.payload ++ rest),
    )

-- The payload of a block that holds these records.
unfoldable pub payload_of : BlockHeaderExt → List OwnedRecord → List ℕ
payload_of ext [] = []
payload_of ext (r ∷ rs) = encoded ext r ++ payload_of ext rs

parse_loop-payload_of :
    (ext : BlockHeaderExt) (rs : List OwnedRecord) (total : ℕ)
    → All (IsAbove ext) rs
    → length (payload_of ext rs) ≤ total
    → IsU64 total
    → parse_loop total (length rs) ext (payload_of ext rs) ≡ ok (rs, [])
unfolding parse_loop payload_of
parse_loop-payload_of ext [] total h fits small = refl
parse_loop-payload_of ext (r ∷ rs) total (hr, hrs) fits small =
    rw (parse_record-encoded ext r total (payload_of ext rs) hr fits small) (
      rw (
        parse_loop-payload_of ext rs total hrs
          (omega (arith, length-append (encoded ext r) (payload_of ext rs))) small))

-- `parse_records` returns the records of a block from the payload that holds them, if every record
-- has its fields in range and is not below the block's bases, and the payload's length fits a u64.
pub parse_records-payload_of :
    (ext : BlockHeaderExt) (rs : List OwnedRecord)
    → All (IsAbove ext) rs
    → IsU64 (length (payload_of ext rs))
    → parse_records (payload_of ext rs) (length rs) ext ≡ ok rs
unfolding parse_records no_trailing
parse_records-payload_of ext rs h small =
    rw (parse_loop-payload_of ext rs (length (payload_of ext rs)) h (omega arith) small)

pub payload_of-snoc :
    (ext : BlockHeaderExt) (rs : List OwnedRecord) (r : OwnedRecord)
    → payload_of ext (rs ++ (r ∷ [])) ≡ payload_of ext rs ++ encoded ext r
unfolding payload_of
payload_of-snoc ext [] r = append-nil (encoded ext r)
payload_of-snoc ext (s ∷ rs) r =
    ap (λ p. encoded ext s ++ p) (payload_of-snoc ext rs r)
    ∙ sym (append_assoc (encoded ext s) (payload_of ext rs) (encoded ext r))
