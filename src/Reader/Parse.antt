-- ===== src/Reader/Parse.antt =====
-- `parse_records` of src/reader.rs: the records in a block's payload. The list of bytes ahead stands
-- for the cursor, which is the payload's length less what is left.
use logjet.Base.{
  ℕ, zero, suc, ◌-◌, List, [], ◌∷◌, ltb, length, drop, take, Result, ok, err, ok_or, fail_if, ◌>>=◌,
  ◌>>◌, checked_add,
}
use logjet.Error.{Error, truncated, invalid_header, numeric_overflow}
use logjet.Record.{OwnedRecord, from_u8}
use logjet.Format.{BlockHeaderExt}
use logjet.Varint.{decode_varint}

unfoldable pub first_byte : List ℕ → Result Error (ℕ × List ℕ)
first_byte [] = err (truncated "record_type")
first_byte (b ∷ bs) = ok (b, bs)

-- One round of the loop: a record and the bytes behind it.
unfoldable pub parse_record : ℕ → BlockHeaderExt → List ℕ → Result Error (OwnedRecord × List ℕ)
parse_record total ext bytes = do
  (tag, bytes₀) ← first_byte bytes
  record_type ← from_u8 tag
  (seq_delta, bytes₁) ← decode_varint bytes₀
  (ts_delta, bytes₂) ← decode_varint bytes₁
  (payload_len, bytes₃) ← decode_varint bytes₂
  end ←
      ok_or (checked_add (total - length bytes₃) payload_len)
        (numeric_overflow "record payload end")
  fail_if (ltb total end) (truncated "record payload")
  seq ← ok_or (checked_add ext.base_seq seq_delta) (numeric_overflow "record seq")
  ts ← ok_or (checked_add ext.base_ts_unix_ns ts_delta) (numeric_overflow "record ts")
  ok (
    record {
      record_type = record_type;
      seq = seq;
      ts_unix_ns = ts;
      payload = take payload_len bytes₃;
    },
    drop payload_len bytes₃,
  )

unfoldable pub parse_loop :
    ℕ → ℕ → BlockHeaderExt → List ℕ → Result Error (List OwnedRecord × List ℕ)
parse_loop total zero ext bytes = ok ([], bytes)
parse_loop total (suc count) ext bytes = do
  (r, rest) ← parse_record total ext bytes
  (rs, rest') ← parse_loop total count ext rest
  ok (r ∷ rs, rest')

unfoldable pub no_trailing : List ℕ → Result Error (Unit {0})
no_trailing [] = ok tt
no_trailing (b ∷ bs) = err (invalid_header "payload has trailing bytes")

unfoldable pub parse_records : List ℕ → ℕ → BlockHeaderExt → Result Error (List OwnedRecord)
parse_records payload record_count ext = do
  (rs, rest) ← parse_loop (length payload) record_count ext payload
  no_trailing rest
  ok rs
