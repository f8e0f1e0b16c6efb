-- ===== src/Dedup/Exact.antt =====
-- ljx/src/dedup/bucket.rs and ljx/src/dedup/exact.rs. A `HashMap` is its list of entries, which a loop over
-- it takes in any order; `xxh3_64` is a library's function.
use logjet.Base.{
  ℕ, zero, suc, Bool, List, [], ◌∷◌, ◌++◌, Option, none, some, ◌==◌, if◌then◌else◌, length,
}
use logjet.Dedup.Flat.{FlatRecord, BucketKey, BucketKeyKind, from_record}
use logjet.Dedup.Group.{DedupGroup, new, absorb}

abbrev pub Buckets : Type 0 → Type 0
Buckets K = List (BucketKey × List (FlatRecord K))

module _ {K : Type 0} where
  -- `entry(key).or_default().push(rec)`, with the comparison of keys.
  unfoldable pub push_entry :
      (BucketKey → BucketKey → Bool) → BucketKey → FlatRecord K → Buckets K → Buckets K
  push_entry same key rec [] = (key, rec ∷ []) ∷ []
  push_entry same key rec (bucket ∷ buckets) =
      let others = push_entry same key rec buckets in
      if same bucket.0 key then (bucket.0, bucket.1 ++ (rec ∷ [])) ∷ buckets else bucket ∷ others

  unfoldable pub group_onto :
      (BucketKey → BucketKey → Bool) → BucketKeyKind → List (FlatRecord K) → Buckets K → Buckets K
  group_onto same kind [] buckets = buckets
  group_onto same kind (rec ∷ records) buckets =
      group_onto same kind records (push_entry same (from_record rec kind) rec buckets)

  unfoldable pub group :
      (BucketKey → BucketKey → Bool) → List (FlatRecord K) → BucketKeyKind → Buckets K
  group same records kind = group_onto same kind records []

-- `hash_to_idx.get(&hash)`
abbrev pub get : ℕ → List (ℕ × ℕ) → Option ℕ
get hash [] = none
get hash (entry ∷ entries) = if entry.0 == hash then some entry.1 else get hash entries

-- The first group of each hash, and the groups so far.
pub record Indexed (K : Type 0) : Type 0 where
  pub hash_to_idx : List (ℕ × ℕ)
  pub groups : List (DedupGroup K)

module _ {K : Type 0} where
  -- `groups[idx].absorb(&rec)`
  unfoldable pub absorb_at : ℕ → FlatRecord K → List (DedupGroup K) → List (DedupGroup K)
  absorb_at idx rec [] = []
  absorb_at zero rec (g ∷ gs) = absorb rec g ∷ gs
  absorb_at (suc idx) rec (g ∷ gs) = g ∷ absorb_at idx rec gs

  abbrev pub dedup_found : BucketKey → ℕ → FlatRecord K → Indexed K → Option ℕ → Indexed K
  dedup_found key hash rec s (some idx) = record s { groups = absorb_at idx rec s.groups }
  dedup_found key hash rec s none = record {
    hash_to_idx = (hash, length s.groups) ∷ s.hash_to_idx;
    groups = s.groups ++ (new key hash rec ∷ []);
  }

module _ {K : Type 0} (xxh3_64 : List ℕ → ℕ) where
  unfoldable pub dedup_records : BucketKey → List (FlatRecord K) → Indexed K → Indexed K
  dedup_records key [] s = s
  dedup_records key (rec ∷ records) s =
      dedup_records key records
        (dedup_found key (xxh3_64 rec.body) rec s (get (xxh3_64 rec.body) s.hash_to_idx))

  unfoldable pub dedup_bucket : BucketKey → List (FlatRecord K) → List (DedupGroup K)
  dedup_bucket key records =
      (dedup_records key records (record { hash_to_idx = []; groups = [] })).groups

  unfoldable pub dedup : Buckets K → List (DedupGroup K)
  dedup [] = []
  dedup (bucket ∷ buckets) = dedup_bucket bucket.0 bucket.1 ++ dedup buckets
