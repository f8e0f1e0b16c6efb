-- ===== src/Dedup/Flat.antt =====
-- ljx/src/dedup/flat_record.rs: a flattened log record and the key of its bucket. The attributes are the
-- protocol library's: a type `K`.
use logjet.Base.{ℕ, String, List, Option, none, some}

-- The signed integers of the severity and the line number.
pub data ℤ : Type 0 where
  pos negsuc : ℕ → ℤ

pub record FlatRecord (K : Type 0) : Type 0 where
  pub service_name : String
  pub severity_number : ℤ
  pub severity_text : String
  pub scope_name : String
  pub event_name : String
  pub code_filepath : Option String
  pub code_lineno : Option ℤ
  pub trace_id : List ℕ
  pub span_id : List ℕ
  pub time_unix_nano : ℕ
  pub observed_time_unix_nano : ℕ
  pub body : List ℕ
  pub resource_attrs : List K
  pub scope_attrs : List K
  pub record_attrs : List K

pub data BucketKeyKind : Type 0 where
  global default scope source_line scope_and_source_line : BucketKeyKind

pub record BucketKey : Type 0 where
  pub service_name : String
  pub severity_number : ℤ
  pub scope_name : Option String
  pub code_filepath : Option String
  pub code_lineno : Option ℤ

module _ {K : Type 0} where
  abbrev pub scope_of : BucketKeyKind → FlatRecord K → Option String
  scope_of scope rec = some rec.scope_name
  scope_of scope_and_source_line rec = some rec.scope_name
  scope_of global rec = none
  scope_of default rec = none
  scope_of source_line rec = none

  abbrev pub line_of : BucketKeyKind → FlatRecord K → Option String × Option ℤ
  line_of source_line rec = (rec.code_filepath, rec.code_lineno)
  line_of scope_and_source_line rec = (rec.code_filepath, rec.code_lineno)
  line_of global rec = (none, none)
  line_of default rec = (none, none)
  line_of scope rec = (none, none)

  abbrev pub located : BucketKeyKind → FlatRecord K → BucketKey
  located kind rec = record {
    service_name = rec.service_name;
    severity_number = rec.severity_number;
    scope_name = scope_of kind rec;
    code_filepath = (line_of kind rec).0;
    code_lineno = (line_of kind rec).1;
  }

  unfoldable pub from_record : FlatRecord K → BucketKeyKind → BucketKey
  from_record rec global = record {
    service_name = "";
    severity_number = pos 0;
    scope_name = none;
    code_filepath = none;
    code_lineno = none;
  }
  from_record rec default = located default rec
  from_record rec scope = located scope rec
  from_record rec source_line = located source_line rec
  from_record rec scope_and_source_line = located scope_and_source_line rec
