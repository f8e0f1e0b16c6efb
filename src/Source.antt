-- ===== src/Source.antt =====
-- What the reader uses of `R: Read + Seek`: a file or a cursor over bytes that do not change, with a
-- position. Reads past the end are the only failures; a failing device is not modelled.
use logjet.Base.{
  ℕ, ◌+◌, ◌⊎◌, ◌≡◌, List, ◌++◌, leb, if◌then◌else◌, length, take, drop, take-append, drop-append,
  length-append, le→leb, ok, err, drop-drop, ◌∙◌, subst, ap, sym, arith,
}
use logjet.Base.Exec.{Exec}
use logjet.Error.{ErrorKind, unexpected_eof}

pub record Source : Type 0 where
  pub bytes : List ℕ
  pub pos : ℕ

-- What lies ahead of the position.
abbrev pub ahead : Source → List ℕ
ahead s = drop s.pos s.bytes

abbrev pub seek : ℕ → Source → Source
seek pos s = record s { pos = pos }

-- After a short read the cursor stands at the end.
unfoldable pub read_exact : ℕ → Exec Source ErrorKind (List ℕ)
read_exact n s =
    if leb n (length (ahead s))
    then (ok (take n (ahead s)), seek (s.pos + n) s)
    else (err unexpected_eof, seek (length s.bytes) s)

pub read_exact_lem :
    (xs ys : List ℕ) (s : Source)
    → ahead s ≡ xs ++ ys
    → read_exact (length xs) s ≡ (ok xs, seek (s.pos + length xs) s)
unfolding read_exact
read_exact_lem xs ys s e = rw (
  e,
  le→leb (length xs) (length (xs ++ ys)) (omega (arith, length-append xs ys)),
  take-append xs ys,
)

pub ahead-seek :
    (xs ys : List ℕ) (s : Source) → ahead s ≡ xs ++ ys → ahead (seek (s.pos + length xs) s) ≡ ys
ahead-seek xs ys s e =
    sym (drop-drop s.pos (length xs) s.bytes) ∙ ap (drop (length xs)) e ∙ drop-append xs ys

-- The same for a number of bytes that is known.
pub read_at :
    (n : ℕ) (xs ys : List ℕ) (s : Source)
    → length xs ≡ n
    → ahead s ≡ xs ++ ys
    → read_exact n s ≡ (ok xs, seek (s.pos + n) s)
read_at n xs ys s e h =
    subst (λ k. read_exact k s ≡ (ok xs, seek (s.pos + k) s)) e (read_exact_lem xs ys s h)

pub ahead_at :
    (n : ℕ) (xs ys : List ℕ) (s : Source)
    → length xs ≡ n
    → ahead s ≡ xs ++ ys
    → ahead (seek (s.pos + n) s) ≡ ys
ahead_at n xs ys s e h = subst (λ k. ahead (seek (s.pos + k) s) ≡ ys) e (ahead-seek xs ys s h)

pub read_exact-bytes : (n : ℕ) (s : Source) → (read_exact n s).1.bytes ≡ s.bytes
unfolding read_exact
read_exact-bytes n s = ground arith

-- A read moves past what it returns, or to the end.
pub read_exact-pos :
    (n : ℕ) (s : Source)
    → ((read_exact n s).1.pos ≡ s.pos + n) ⊎ ((read_exact n s).1.pos ≡ length s.bytes)
unfolding read_exact
read_exact-pos n s = ground arith
