-- ===== src/Tests/Dedup.antt =====
-- The exact deduplication at three records, two of which have the same body.
use logjet.Base.{ℕ, ◌≡◌, refl, min, List, [], ◌∷◌, none, length}
use logjet.Dedup.Flat.{FlatRecord, BucketKey, BucketKeyKind, pos, from_record}
use logjet.Dedup.Group.{collect_exemplar, hex_encode}
use logjet.Dedup.Exact.{dedup_bucket}
use logjet.Dedup.Counts.{counted, signed, hashed, dedup_bucket_lem}

abbrev with_body : List ℕ → FlatRecord ℕ
with_body body = record {
  service_name = "api";
  severity_number = pos 9;
  severity_text = "INFO";
  scope_name = "";
  event_name = "";
  code_filepath = none;
  code_lineno = none;
  trace_id = 1 ∷ [];
  span_id = 2 ∷ [];
  time_unix_nano = 5;
  observed_time_unix_nano = 6;
  body = body;
  resource_attrs = [];
  scope_attrs = [];
  record_attrs = [];
}

abbrev records : List (FlatRecord ℕ)
records = with_body (7 ∷ []) ∷ with_body (8 ∷ 9 ∷ []) ∷ with_body (7 ∷ []) ∷ []

-- The length stands for the hash.
abbrev key : BucketKey
key = from_record (with_body []) BucketKeyKind.default

dedup_bucket_lem_example :
    (counted 1 (dedup_bucket length key records) ≡ hashed length 1 records)
    × (signed 1 (dedup_bucket length key records) ≡ min (hashed length 1 records) 1)
dedup_bucket_lem_example = dedup_bucket_lem length key records 1

-- A third exemplar takes the place of the second: there are never three.
exemplars_test :
    collect_exemplar (collect_exemplar (hex_encode (1 ∷ []) ∷ []) (2 ∷ [])) (3 ∷ [])
    ≡ hex_encode (1 ∷ []) ∷ hex_encode (3 ∷ []) ∷ []
unfolding collect_exemplar hex_encode
exemplars_test = refl
