-- ===== src/Reader/Sync.antt =====
-- `find_next_sync` of src/reader.rs.
pub mod FirstSync
pub mod Search
use logjet.Base.{
  ℕ, suc, ◌+◌, ◌-◌, Bool, false, ◌&&◌, List, [], ◌∷◌, Option, none, some, ◌==◌, if◌then◌else◌,
  length, get_elem?, ok,
}
use logjet.Base.Exec.{Exec}
use logjet.Error.{Error}
use logjet.Source.{ahead}
use logjet.Reader.State.{LogjetReader, seek_to}

-- `candidate == self.config.sync_marker[matched]`
unfoldable pub matches_at : List ℕ → ℕ → ℕ → Bool
matches_at marker matched candidate = elim (get_elem? marker matched) [
  | none ↦ false
  | some expected ↦ candidate == expected
]

-- The number of marker bytes matched after one more byte.
unfoldable pub step_match : List ℕ → ℕ → ℕ → ℕ
step_match marker matched candidate =
    if matches_at marker matched candidate
    then suc matched
    else if matches_at marker 0 candidate
    then 1
    else 0

-- The loop of `find_next_sync` over the bytes ahead; the result is `sync_start`.
unfoldable pub find_loop : List ℕ → ℕ → List ℕ → ℕ → ℕ → Option ℕ
find_loop marker start [] matched offset = none
find_loop marker start (candidate ∷ rest) matched offset =
    let later = find_loop marker start rest (step_match marker matched candidate) (suc offset) in
    if matches_at marker matched candidate && suc matched == length marker
    then some (start + offset + 1 - length marker)
    else later

-- When no marker is found the position is at the end, since every byte has been read.
unfoldable pub found : Option ℕ → Exec LogjetReader Error (Option ℕ)
found none r = (ok none, seek_to (r.inner.pos + length (ahead r.inner)) r)
found (some sync_start) r = (ok (some sync_start), seek_to sync_start r)

unfoldable pub find_next_sync : Exec LogjetReader Error (Option ℕ)
unfolding found
find_next_sync r = found (find_loop r.config.sync_marker r.inner.pos (ahead r.inner) 0 0) r
