-- ===== src/Protocol/Wire.antt =====
-- `read_record` and `write_record` of logjetd/src/protocol.rs.
use logjet.Base.{
  ℕ, ◌-◌, ◌^◌, Bool, not, List, ◌++◌, Option, none, some, ltb, ◌==◌, bytes_eq, Result, ok, err,
  map_err, fail_if, from_le,
}
use logjet.Base.Exec.{Exec, pure, lift, ◌>>=◌, ◌>>◌}
use logjet.Error.{ErrorKind, unexpected_eof, invalid_data}
use logjet.Record
use logjet.Record.{RecordType}
use logjet.Codec.{Libraries}
use logjet.Source.{Source, read_exact}
use logjet.Protocol.Frame.{wire_magic, wire_version, WireRecord, field, decode_payload, wire_bytes}

-- Only a short read of the magic is the end of the stream.
abbrev pub eof_as_none : Result ErrorKind (List ℕ) → Result ErrorKind (Option (List ℕ))
eof_as_none (ok magic) = ok (some magic)
eof_as_none (err unexpected_eof) = ok none
eof_as_none (err kind) = err kind

unfoldable pub read_magic : Exec Source ErrorKind (Option (List ℕ))
read_magic s = let got = read_exact 8 s in (eof_as_none got.0, got.1)

module _ (lib : Libraries) where
  -- `read_record_with_limit` behind the magic.
  unfoldable pub read_body : ℕ → Exec Source ErrorKind WireRecord
  read_body max_payload_len = do
    header ← read_exact 24
    lift (fail_if (not (field 0 1 header == wire_version)) invalid_data)
    record_type ← lift (map_err (λ _. invalid_data) (Record.from_u8 (field 1 1 header)))
    let payload_len = field 20 4 header
    lift (fail_if (ltb max_payload_len payload_len) invalid_data)
    wire_payload ← read_exact payload_len
    crc_bytes ← read_exact 4
    lift (fail_if (not (lib.crc32c (header ++ wire_payload) == from_le crc_bytes)) invalid_data)
    payload ← lift (decode_payload lib (field 2 1 header) wire_payload)
    pure (record {
      record_type = record_type;
      seq = field 4 8 header;
      ts_unix_ns = field 12 8 header;
      payload = payload;
    })

  unfoldable pub after_magic : ℕ → Option (List ℕ) → Exec Source ErrorKind (Option WireRecord)
  after_magic max_payload_len none = pure none
  after_magic max_payload_len (some magic) = do
    lift (fail_if (not (bytes_eq magic wire_magic)) invalid_data)
    read_back ← read_body max_payload_len
    pure (some read_back)

  unfoldable pub read_record_with_limit : ℕ → Exec Source ErrorKind (Option WireRecord)
  read_record_with_limit max_payload_len = do magic ← read_magic; after_magic max_payload_len magic

  unfoldable pub read_record : Exec Source ErrorKind (Option WireRecord)
  read_record = read_record_with_limit (2 ^ 64 - 1)

  unfoldable pub write_record :
      {W : Type 0}
      → (List ℕ → Exec W ErrorKind (Unit {0}))
      → WireRecord
      → Bool
      → Exec W ErrorKind (Unit {0})
  write_record write_all r compress = do buf ← lift (wire_bytes lib r compress); write_all buf
