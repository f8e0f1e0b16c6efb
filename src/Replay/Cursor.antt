-- ===== src/Replay/Cursor.antt =====
-- A replay cursor over a spool in memory, as the daemon's replay (logjetd/src/daemon.rs) moves it.
use logjet.Base.{
  ℕ, ◌+◌, ◌≤◌, ◌<◌, ◌≡◌, refl, ◌∙◌, List, [], ◌∷◌, ◌++◌, none, some, length, get_elem?, All, arith,
  lt→ltb, le→ltb, le→leb, lt→leb, Option-cases, inl, inr,
}
use logjet.Protocol.Frame.{WireRecord}
use logjet.Spool.Buffer.{
  BufferSpool, BufferReplayCursor, position, next_for_cursor, pop_through, replay_cursor_after,
}
use logjet.Spool.Cursor.{IsAscending, next_for_cursor-search_next}

-- Sequence numbers above `seq`, each above the one before.
abbrev pub IsIncreasing : ℕ → List WireRecord → Type 0
IsIncreasing seq [] = Unit
IsIncreasing seq (r ∷ rs) = (seq < r.seq) × IsIncreasing r.seq rs

abbrev pub IsOld : ℕ → List WireRecord → Type 0
IsOld seq rs = All (λ (r : WireRecord). r.seq ≤ seq) rs

IsIncreasing-least :
    (low seq : ℕ) (rs : List WireRecord)
    → low ≤ seq
    → IsIncreasing seq rs
    → All (λ (r : WireRecord). low ≤ r.seq) rs
IsIncreasing-least low seq [] le inc = tt
IsIncreasing-least low seq (r ∷ rs) le (h, inc) =
    (omega arith, IsIncreasing-least low r.seq rs (omega (arith, le, h)) inc)

pub IsIncreasing-IsAscending :
    (seq : ℕ) (rs : List WireRecord) → IsIncreasing seq rs → IsAscending rs
IsIncreasing-IsAscending seq [] inc = tt
IsIncreasing-IsAscending seq (r ∷ rs) (h, inc) =
    (IsIncreasing-least r.seq r.seq rs (omega arith) inc, IsIncreasing-IsAscending r.seq rs inc)

pub IsOld-mono : (seq seq' : ℕ) (rs : List WireRecord) → seq ≤ seq' → IsOld seq rs → IsOld seq' rs
IsOld-mono seq seq' [] le old = tt
IsOld-mono seq seq' (r ∷ rs) le (h, old) = (omega (arith, le, h), IsOld-mono seq seq' rs le old)

position-append :
    (seq : ℕ) (old : List WireRecord) (r : WireRecord) (rest : List WireRecord)
    → IsOld seq old
    → seq < r.seq
    → position seq (old ++ (r ∷ rest)) ≡ some (length old)
unfolding position
position-append seq [] r rest h new = rw (lt→ltb seq r.seq new)
position-append seq (x ∷ old) r rest (hx, h) new =
    rw (le→ltb seq x.seq hx, position-append seq old r rest h new)

position-old : (seq : ℕ) (old : List WireRecord) → IsOld seq old → position seq old ≡ none
unfolding position
position-old seq [] h = refl
position-old seq (x ∷ old) (hx, h) = rw (le→ltb seq x.seq hx, position-old seq old h)

get_elem?-append :
    (old : List WireRecord) (r : WireRecord) (rest : List WireRecord)
    → get_elem? (old ++ (r ∷ rest)) (length old) ≡ some r
get_elem?-append [] r rest = refl
get_elem?-append (x ∷ old) r rest = get_elem?-append old r rest

pub next_for_cursor-newer :
    (s : BufferSpool) (cursor : BufferReplayCursor) (old : List WireRecord) (r : WireRecord)
    (rest : List WireRecord)
    → IsAscending s.records
    → s.records ≡ old ++ (r ∷ rest)
    → IsOld cursor.last_seq old
    → cursor.last_seq < r.seq
    → next_for_cursor cursor s ≡ (some r, record { next_index = length old + 1; last_seq = r.seq })
next_for_cursor-newer s cursor old r rest asc at h new =
    next_for_cursor-search_next s asc cursor
    ∙ rw (at, position-append cursor.last_seq old r rest h new, get_elem?-append old r rest)

pub next_for_cursor-waits :
    (s : BufferSpool) (cursor : BufferReplayCursor)
    → IsAscending s.records
    → IsOld cursor.last_seq s.records
    → next_for_cursor cursor s ≡ (none, cursor)
next_for_cursor-waits s cursor asc h =
    next_for_cursor-search_next s asc cursor ∙ rw (position-old cursor.last_seq s.records h)

pub pop_through-append :
    (old : List WireRecord) (r : WireRecord) (rest : List WireRecord)
    → IsOld r.seq old
    → IsIncreasing r.seq rest
    → pop_through r.seq (old ++ (r ∷ rest)) ≡ rest
pop_through-append [] r [] h inc = rw (le→leb r.seq r.seq (omega arith))
pop_through-append [] r (x ∷ rest) h (new, inc) =
    rw (le→leb r.seq r.seq (omega arith), lt→leb x.seq r.seq new)
pop_through-append (x ∷ old) r rest (hx, h) inc =
    rw (le→leb x.seq r.seq hx, pop_through-append old r rest h inc)

pub replay_cursor_after-last_seq :
    (seq : ℕ) (s : BufferSpool) → (replay_cursor_after seq s).last_seq ≡ seq
unfolding replay_cursor_after
replay_cursor_after-last_seq seq s = elim (Option-cases (position seq s.records)) [
  | inl e ↦ rw (replay_cursor_after, e) refl
  | inr f ↦ rw (replay_cursor_after, f.1) refl
]
