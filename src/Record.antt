-- ===== src/Record.antt =====
-- src/record.rs: the record types and a record with its payload. A borrowed `Record` and an
-- `OwnedRecord` are the same value here.
use logjet.Base.{ℕ, ◌≡◌, refl, List, arith, ◌==◌, if◌then◌else◌, Result, ok, err, IsU64, length}
use logjet.Error.{Error, invalid_record_type}

pub data RecordType : Type 0 where
  logs metrics traces events : RecordType

-- `record_type as u8`
abbrev pub as_u8 : RecordType → ℕ
as_u8 logs = 1
as_u8 metrics = 2
as_u8 traces = 3
as_u8 events = 4

unfoldable pub from_u8 : ℕ → Result Error RecordType
from_u8 value =
    if value == 1
    then ok logs
    else if value == 2
    then ok metrics
    else if value == 3
    then ok traces
    else if value == 4
    then ok events
    else err (invalid_record_type value)

pub record OwnedRecord : Type 0 where
  pub record_type : RecordType
  pub seq : ℕ
  pub ts_unix_ns : ℕ
  pub payload : List ℕ

-- The ranges that the field types give.
pub record IsRecord (r : OwnedRecord) : Type 0 where
  pub seq : IsU64 r.seq
  pub ts_unix_ns : IsU64 r.ts_unix_ns
  pub payload : IsU64 (length r.payload)

-- A tag is accepted exactly when it is the number of a record type.
pub from_u8-as_u8 : (t : RecordType) → from_u8 (as_u8 t) ≡ ok t
unfolding from_u8
from_u8-as_u8 logs = refl
from_u8-as_u8 metrics = refl
from_u8-as_u8 traces = refl
from_u8-as_u8 events = refl

pub as_u8-from_u8 : (v : ℕ) (t : RecordType) → from_u8 v ≡ ok t → as_u8 t ≡ v
unfolding from_u8
as_u8-from_u8 v t h = ground arith
