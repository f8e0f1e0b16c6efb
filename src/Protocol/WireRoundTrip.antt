-- ===== src/Protocol/WireRoundTrip.antt =====
-- Reading back what `write_record` of logjetd/src/protocol.rs lays out.
use logjet.Base.{
  ℕ, ◌+◌, ◌≤◌, ◌<◌, ◌^◌, ◌≡◌, refl, ◌∙◌, Bool, true, ◌&&◌, List, ◌++◌, append_assoc, some, inl, inr,
  ltb, ◌==◌, ==_refl, Bool-cases, length, drop-append, arith, ok, IsU32, IsU64, le_bytes, from_le,
  from_le-le_bytes, lt→ltb, le→ltb,
}
use logjet.Record
use logjet.Record.{RecordType}
use logjet.Codec.{Libraries, LibraryLaws}
use logjet.Source.{Source, ahead, seek, read_at, ahead_at}
use logjet.Protocol.Frame.{
  wire_magic, wire_version, WireRecord, field, to_u32, decode_payload, wire_payload_of, wire_header,
  wire_bytes,
}
use logjet.Protocol.Wire.{read_magic, read_body, after_magic, read_record_with_limit}

-- The field types' ranges, and a payload that fits the frame with the length that compression adds.
pub record IsWireRecord (r : WireRecord) : Type 0 where
  pub seq : IsU64 r.seq
  pub ts_unix_ns : IsU64 r.ts_unix_ns
  pub payload : length r.payload + 4 < 2 ^ 32

-- A payload as it is sent.
record IsSent (lib : Libraries) (payload : List ℕ) (codec : ℕ) (wire : List ℕ) : Type 0 where
  size : length wire ≤ length payload + 4
  decodes : decode_payload lib codec wire ≡ ok payload

to_u32-fits : (len : ℕ) → len < 2 ^ 32 → to_u32 len ≡ ok len
unfolding to_u32
to_u32-fits len h = rw (lt→ltb len (2 ^ 32) h)

module _ (lib : Libraries) (laws : LibraryLaws lib) where
  compressed-IsSent :
      (payload : List ℕ)
      → length payload < 2 ^ 32
      → length (lib.lz4_compress payload) < length payload
      → IsSent lib payload 1 (le_bytes 4 (length payload) ++ lib.lz4_compress payload)
  unfolding decode_payload
  compressed-IsSent payload small h = record {
    size = omega arith;
    decodes =
        rw
          (le→ltb (length (le_bytes 4 (length payload) ++ lib.lz4_compress payload)) 4
            (omega arith))
          (rw (from_le-le_bytes 4 (length payload) small) (rw (laws.lz4_inverse payload)));
  }

  wire_payload_of-IsSent :
      (compress : Bool) (payload : List ℕ)
      → length payload < 2 ^ 32
      → (codec : ℕ) × (wire : List ℕ) × (wire_payload_of lib compress payload ≡ ok (codec, wire))
        × IsSent lib payload codec wire
  unfolding wire_payload_of decode_payload
  wire_payload_of-IsSent compress payload small =
      elim (Bool-cases (compress && ltb (length (lib.lz4_compress payload)) (length payload))) [
        | inl shorter ↦ (
          1,
          le_bytes 4 (length payload) ++ lib.lz4_compress payload,
          rw shorter (rw (to_u32-fits (length payload) small)),
          compressed-IsSent payload small (ground (arith, shorter)),
        )
        | inr longer ↦ (0, payload, rw longer refl, record { size = omega arith; decodes = refl })
      ]

-- The fields of a header.
module _ (r : WireRecord) (codec payload_len : ℕ) where
  abbrev header : List ℕ
  header = wire_header r codec payload_len

  field-version : field 0 1 header ≡ wire_version
  unfolding wire_header
  field-version = omega arith

  field-type : field 1 1 header ≡ Record.as_u8 r.record_type
  unfolding wire_header
  field-type = omega arith

  field-codec : field 2 1 header ≡ codec
  unfolding wire_header
  field-codec = omega arith

  field-seq : IsU64 r.seq → field 4 8 header ≡ r.seq
  unfolding wire_header
  field-seq h = from_le-le_bytes 8 r.seq h

  field-ts : IsU64 r.ts_unix_ns → field 12 8 header ≡ r.ts_unix_ns
  unfolding wire_header
  field-ts h = from_le-le_bytes 8 r.ts_unix_ns h

  field-len : IsU32 payload_len → field 20 4 header ≡ payload_len
  unfolding wire_header
  field-len h = from_le-le_bytes 4 payload_len h

  length-header : length header ≡ 24
  unfolding wire_header
  length-header = refl

module _ (lib : Libraries) (laws : LibraryLaws lib) (r : WireRecord) (ranges : IsWireRecord r)
    (codec : ℕ) (wire : List ℕ) (sent : IsSent lib r.payload codec wire) where
  abbrev sent_header : List ℕ
  sent_header = wire_header r codec (length wire)

  abbrev crc_bytes : List ℕ
  crc_bytes = le_bytes 4 (lib.crc32c (sent_header ++ wire))

  crc_read : (lib.crc32c (sent_header ++ wire) == from_le crc_bytes) ≡ true
  crc_read =
      rw (from_le-le_bytes 4 _ (laws.crc32c_u32 (sent_header ++ wire)))
        (==_refl (lib.crc32c (sent_header ++ wire)))

  module _ (max_payload_len : ℕ) (s : Source) (rest : List ℕ)
      (fits : length r.payload + 4 ≤ max_payload_len)
      (body : ahead s ≡ sent_header ++ (wire ++ (crc_bytes ++ rest))) where
    abbrev s₁ : Source
    s₁ = seek (s.pos + 24) s

    abbrev s₂ : Source
    s₂ = seek (s₁.pos + length wire) s₁

    abbrev s₃ : Source
    s₃ = seek (s₂.pos + 4) s₂

    a₁ : ahead s₁ ≡ wire ++ (crc_bytes ++ rest)
    a₁ = ahead_at 24 sent_header _ s (length-header r codec (length wire)) body

    a₂ : ahead s₂ ≡ crc_bytes ++ rest
    a₂ = ahead_at (length wire) wire _ s₁ refl a₁

    len-IsU32 : IsU32 (length wire)
    len-IsU32 = omega (arith, sent.size, ranges.payload)

    read_body-sent : read_body lib max_payload_len s ≡ (ok r, s₃)
    unfolding read_body
    read_body-sent = rw (read_at 24 sent_header _ s (length-header r codec (length wire)) body) (
        rw (field-version r codec (length wire)) (
          rw (field-type r codec (length wire)) (
            rw (Record.from_u8-as_u8 r.record_type) (
              rw (field-len r codec (length wire) len-IsU32) (
                rw (le→ltb max_payload_len (length wire) (omega (arith, sent.size, fits))) (
                  rw (read_at (length wire) wire _ s₁ refl a₁) (
                    rw (read_at 4 crc_bytes rest s₂ refl a₂) (
                      rw crc_read (
                        rw (field-codec r codec (length wire)) (
                          rw sent.decodes (λ i. (
                            ok (record r {
                              seq = field-seq r codec (length wire) ranges.seq i;
                              ts_unix_ns = field-ts r codec (length wire) ranges.ts_unix_ns i;
                            }),
                            s₃,
                          ))))))))))))

    ahead-s₃ : ahead s₃ ≡ rest
    ahead-s₃ = ahead_at 4 crc_bytes rest s₂ refl a₂

module _ (lib : Libraries) (laws : LibraryLaws lib) (r : WireRecord) (ranges : IsWireRecord r)
    (max_payload_len : ℕ) (fits : length r.payload + 4 ≤ max_payload_len) where
  read_record-sent :
      (codec : ℕ) (wire : List ℕ) (sent : IsSent lib r.payload codec wire) (s : Source)
      (rest : List ℕ)
      → ahead s
        ≡ wire_magic
          ++ (wire_header r codec (length wire)
              ++ (wire ++ (crc_bytes lib laws r ranges codec wire sent ++ rest)))
      → (s' : Source) × (read_record_with_limit lib max_payload_len s ≡ (ok (some r), s'))
        × (ahead s' ≡ rest)
  unfolding read_record_with_limit after_magic read_magic
  read_record-sent codec wire sent s rest at =
      let s₀ = seek (s.pos + 8) s in
      let body = ahead_at 8 wire_magic _ s refl at in
      (
        s₃ lib laws r ranges codec wire sent max_payload_len s₀ rest fits body,
        rw (read_at 8 wire_magic _ s refl at) (
            rw
              (read_body-sent lib laws r ranges codec wire sent max_payload_len s₀ rest fits body)),
        ahead-s₃ lib laws r ranges codec wire sent max_payload_len s₀ rest fits body,
      )

  -- What `write_record` sends, read wherever it lies ahead.
  pub wire_bytes-read :
      (compress : Bool)
      → (buf : List ℕ) × (wire_bytes lib r compress ≡ ok buf)
        × ((s : Source) (rest : List ℕ)
            → ahead s ≡ buf ++ rest
            → (s' : Source) × (read_record_with_limit lib max_payload_len s ≡ (ok (some r), s'))
              × (ahead s' ≡ rest))
  unfolding wire_bytes
  wire_bytes-read compress =
      let (codec, wire, chosen, sent) =
        wire_payload_of-IsSent lib laws compress r.payload (omega (arith, ranges.payload)) in
      let covered = wire_header r codec (length wire) ++ wire in
      let crc = crc_bytes lib laws r ranges codec wire sent in
      (
        wire_magic ++ (covered ++ crc),
        rw chosen (rw (to_u32-fits (length wire) (omega (arith, sent.size, ranges.payload)))),
        λ s rest at. read_record-sent codec wire sent s rest (at ∙ simp append_assoc),
      )

  -- Every wire record in range has a frame, compressed or not, and `read_record_with_limit` reads
  -- the record back from it and stops right behind it, wherever the frame stands in the stream. The
  -- payload and four bytes more are within the limit and below 2 ^ 32, and the libraries invert
  -- their own compression.
  pub read_record_with_limit-wire_bytes :
      (compress : Bool) (before rest : List ℕ)
      → (buf : List ℕ) × (s' : Source) × (wire_bytes lib r compress ≡ ok buf)
        × (read_record_with_limit lib max_payload_len
              (record { bytes = before ++ (buf ++ rest); pos = length before })
            ≡ (ok (some r), s'))
        × (ahead s' ≡ rest)
  read_record_with_limit-wire_bytes compress before rest =
      let (buf, framed, read) = wire_bytes-read compress in
      let (s', got, behind) =
        read (record { bytes = before ++ (buf ++ rest); pos = length before }) rest
          (drop-append before (buf ++ rest)) in
      (buf, s', framed, got, behind)
