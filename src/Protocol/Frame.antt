-- ===== src/Protocol/Frame.antt =====
-- The record frame of logjetd/src/protocol.rs. An `io::Error` stands by its kind; its texts are
-- left out.
use logjet.Base.{
  ℕ, ◌^◌, Bool, ◌&&◌, String, List, [], ◌∷◌, ◌++◌, ◌⊎◌, inl, inr, ltb, ◌==◌, if◌then◌else◌, length,
  take, drop, Result, ok, err, map_ok, le_bytes, from_le, ◌>>=◌,
}
use logjet.Error.{ErrorKind, invalid_data, invalid_input}
use logjet.Record
use logjet.Record.{RecordType}
use logjet.Codec.{Libraries}

-- "LJNETV01"
abbrev pub wire_magic : List ℕ
wire_magic = 0x4c ∷ 0x4a ∷ 0x4e ∷ 0x45 ∷ 0x54 ∷ 0x56 ∷ 0x30 ∷ 0x31 ∷ []

abbrev pub wire_version : ℕ
wire_version = 1

pub record WireRecord : Type 0 where
  pub record_type : RecordType
  pub seq : ℕ
  pub ts_unix_ns : ℕ
  pub payload : List ℕ

-- The integer of `width` bytes from `header[at]` on.
abbrev pub field : ℕ → ℕ → List ℕ → ℕ
field at width header = from_le (take width (drop at header))

abbrev pub or_invalid_data : String ⊎ List ℕ → Result ErrorKind (List ℕ)
or_invalid_data (inl text) = err invalid_data
or_invalid_data (inr bytes) = ok bytes

-- `u32::try_from(len)`
unfoldable pub to_u32 : ℕ → Result ErrorKind ℕ
to_u32 len = if ltb len (2 ^ 32) then ok len else err invalid_input

-- The header's 24 bytes.
unfoldable pub wire_header : WireRecord → ℕ → ℕ → List ℕ
wire_header r codec payload_len =
    wire_version
    ∷ Record.as_u8 r.record_type
    ∷ codec
    ∷ 0
    ∷ (le_bytes 8 r.seq ++ (le_bytes 8 r.ts_unix_ns ++ le_bytes 4 payload_len))

module _ (lib : Libraries) where
  unfoldable pub decode_payload : ℕ → List ℕ → Result ErrorKind (List ℕ)
  decode_payload codec wire_payload =
      if codec == 0
      then ok wire_payload
      else if codec == 1
      then (if ltb (length wire_payload) 4
          then err invalid_data
          else or_invalid_data
              (lib.lz4_decompress (drop 4 wire_payload) (from_le (take 4 wire_payload))))
      else err invalid_data

  -- The codec byte and the payload as it is sent.
  unfoldable pub wire_payload_of : Bool → List ℕ → Result ErrorKind (ℕ × List ℕ)
  wire_payload_of compress payload =
      let compressed = lib.lz4_compress payload in
      if compress && ltb (length compressed) (length payload)
      then map_ok (λ len. (1, le_bytes 4 len ++ compressed)) (to_u32 (length payload))
      else ok (0, payload)

  -- `buf` of `write_record`.
  unfoldable pub wire_bytes : WireRecord → Bool → Result ErrorKind (List ℕ)
  wire_bytes r compress = do
    (codec, wire_payload) ← wire_payload_of compress r.payload
    payload_len ← to_u32 (length wire_payload)
    let covered = wire_header r codec payload_len ++ wire_payload
    ok (wire_magic ++ (covered ++ le_bytes 4 (lib.crc32c covered)))
