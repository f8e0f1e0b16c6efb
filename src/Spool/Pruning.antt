-- ===== src/Spool/Pruning.antt =====
-- Which segment files of a file spool are removed (logjetd/src/spool.rs): `prune_named_segments` on
-- request, and `enforce_retention` when the spool rotates (File.Operations has it with its calls). A
-- segment is its number, which gives its path, and its size; the lists are in the order of the numbers,
-- as `list_segments` sorts them. A file that cannot be removed is not modelled. `prune_bytes` follows the
-- code, which goes on keeping while what it keeps is below the budget; doc/features.md has the kept
-- segments fit within it.
use logjet.Base.{
  ℕ, ◌+◌, ◌-◌, ◌≡◌, max, Bool, true, false, ◌||◌, List, [], ◌∷◌, ◌++◌, Option, none, some, length,
  take, ltb, leb, ◌==◌, if◌then◌else◌, Result, ok, err, saturating_add, saturating_sub,
}
use logjet.Error.{ErrorKind, invalid_input}

pub record Segment : Type 0 where
  pub id : ℕ
  pub size_bytes : ℕ

abbrev pub is_empty : List Segment → Bool
is_empty [] = true
is_empty (s ∷ later) = false

-- The loop from the last segment down: what is removed, and `kept_total`.
unfoldable pub prune_bytes : ℕ → List Segment → List Segment × ℕ
prune_bytes limit_bytes [] = ([], 0)
prune_bytes limit_bytes (s ∷ later) =
    let (removed, kept_total) = prune_bytes limit_bytes later in
    if is_empty later || ltb kept_total limit_bytes
    then (removed, saturating_add kept_total s.size_bytes)
    else (s ∷ removed, kept_total)

unfoldable pub prune_files : ℕ → List Segment → List Segment
prune_files limit summaries =
    let keep = max limit 1 in
    if ltb keep (length summaries) then take (length summaries - keep) summaries else []

abbrev pub unless_single : List Segment → List Segment → List Segment
unless_single summaries removed = if leb (length summaries) 1 then [] else removed

-- The segments that are removed, or with `dry_run` would be.
unfoldable pub prune_named_segments :
    List Segment → Option ℕ → Option ℕ → Result ErrorKind (List Segment)
prune_named_segments summaries none none = err invalid_input
prune_named_segments summaries (some limit) (some limit_bytes) = err invalid_input
prune_named_segments summaries (some limit) none =
    ok (unless_single summaries (prune_files limit summaries))
prune_named_segments summaries none (some limit_bytes) =
    ok (unless_single summaries (prune_bytes limit_bytes summaries).0)

abbrev pub total_bytes : List Segment → ℕ
total_bytes [] = 0
total_bytes (s ∷ later) = s.size_bytes + total_bytes later

-- The loop of `enforce_retention`: what is left.
unfoldable pub retain : ℕ → ℕ → List Segment → List Segment
retain active_segment_id excess [] = []
retain active_segment_id excess (s ∷ later) =
    let rest = retain active_segment_id (saturating_sub excess s.size_bytes) later in
    if (excess == 0) || (s.id == active_segment_id) then s ∷ later else rest

unfoldable pub enforce_retention : ℕ → ℕ → List Segment → List Segment
enforce_retention max_total_bytes active_segment_id segments =
    if max_total_bytes == 0
    then segments
    else if leb (total_bytes segments) max_total_bytes
    then segments
    else retain active_segment_id (total_bytes segments - max_total_bytes) segments

-- The oldest segments go, the others stay.
abbrev pub IsSplit : List Segment → List Segment → List Segment → Type 0
IsSplit segments removed kept = segments ≡ removed ++ kept
