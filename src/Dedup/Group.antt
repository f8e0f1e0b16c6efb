-- ===== src/Dedup/Group.antt =====
-- `DedupGroup` of ljx/src/dedup/mod.rs, with its exemplars and its hexadecimal texts, which are lists of
-- character codes.
use logjet.Base.{
  ℕ, ◌+◌, ◌-◌, ◌/◌, ◌%◌, Bool, true, not, ◌&&◌, List, [], ◌∷◌, Option, none, ltb, leb, ◌==◌,
  if◌then◌else◌,
}
use logjet.Dedup.Flat.{FlatRecord, BucketKey, ℤ}

pub record DedupGroup (K : Type 0) : Type 0 where
  pub bucket_key : BucketKey
  pub signature : ℕ
  pub count : ℕ
  pub representative : FlatRecord K
  pub first_seen_ns : ℕ
  pub last_seen_ns : ℕ
  pub exemplar_trace_ids : List (List ℕ)
  pub exemplar_span_ids : List (List ℕ)
  pub canonical_body : Option (List ℕ)
  pub body_shape : Option (List ℕ)
  pub drain3_template : Option (List ℕ)
  pub drain3_cluster_id : Option ℤ

abbrev pub nibble : ℕ → ℕ
nibble n = if leb n 9 then 48 + n else 97 + n - 10

-- `hex::encode`
unfoldable pub hex_encode : List ℕ → List ℕ
hex_encode [] = []
hex_encode (b ∷ bytes) = nibble (b / 16) ∷ (nibble (b % 16) ∷ hex_encode bytes)

abbrev pub all_zero : List ℕ → Bool
all_zero [] = true
all_zero (c ∷ cs) = c == 48 && all_zero cs

-- Behind the test of the text, by the number of exemplars so far.
abbrev pub keep_exemplar : List (List ℕ) → List ℕ → List (List ℕ)
keep_exemplar [] hex = hex ∷ []
keep_exemplar (first ∷ []) hex = first ∷ (hex ∷ [])
keep_exemplar (first ∷ (second ∷ [])) hex = first ∷ (hex ∷ [])
keep_exemplar (first ∷ (second ∷ (third ∷ more))) hex = first ∷ (second ∷ (hex ∷ more))

-- An empty text passes the test for zeros too.
unfoldable pub collect_exemplar : List (List ℕ) → List ℕ → List (List ℕ)
collect_exemplar exemplars id =
    let hex = hex_encode id in if all_zero hex then exemplars else keep_exemplar exemplars hex

module _ {K : Type 0} where
  unfoldable pub effective_timestamp : FlatRecord K → ℕ
  effective_timestamp rec =
      if not (rec.time_unix_nano == 0) then rec.time_unix_nano else rec.observed_time_unix_nano

  unfoldable pub new : BucketKey → ℕ → FlatRecord K → DedupGroup K
  new bucket_key signature rec = record {
    bucket_key = bucket_key;
    signature = signature;
    count = 1;
    representative = rec;
    first_seen_ns = effective_timestamp rec;
    last_seen_ns = effective_timestamp rec;
    exemplar_trace_ids = hex_encode rec.trace_id ∷ [];
    exemplar_span_ids = hex_encode rec.span_id ∷ [];
    canonical_body = none;
    body_shape = none;
    drain3_template = none;
    drain3_cluster_id = none;
  }

  unfoldable pub absorb : FlatRecord K → DedupGroup K → DedupGroup K
  absorb rec g =
      let ts = effective_timestamp rec in
      record g {
        count = g.count + 1;
        first_seen_ns = if ltb ts g.first_seen_ns then ts else g.first_seen_ns;
        last_seen_ns = if ltb g.last_seen_ns ts then ts else g.last_seen_ns;
        exemplar_trace_ids = collect_exemplar g.exemplar_trace_ids rec.trace_id;
        exemplar_span_ids = collect_exemplar g.exemplar_span_ids rec.span_id;
      }

  unfoldable pub merge_group : DedupGroup K → DedupGroup K → DedupGroup K
  merge_group other g = record g {
    count = g.count + other.count;
    first_seen_ns =
        if ltb other.first_seen_ns g.first_seen_ns then other.first_seen_ns else g.first_seen_ns;
    last_seen_ns =
        if ltb g.last_seen_ns other.last_seen_ns then other.last_seen_ns else g.last_seen_ns;
  }
