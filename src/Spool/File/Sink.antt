-- ===== src/Spool/File/Sink.antt =====
-- The buffered file of logjetd/src/spool.rs as the sink of the writer, where no call fails.
use logjet.Base.{
  ℕ, suc, ◌-◌, ◌≡◌, refl, sym, ap, ◌∙◌, true, Bool-cases, ◌⊎◌, inl, inr, lt→ltb, leb→le, List, [],
  ◌∷◌, ◌++◌, append_assoc, append-nil, Option, none, length, ltb, leb, if◌then◌else◌, Result, ok,
  arith,
}
use native.Mathlib.Decide.{dec_lt}
use logjet.Base.Exec.{modify}
use logjet.Error.{ErrorKind}
use logjet.Writer.{is_empty}
use logjet.Log.Sink.{IsSink}
use logjet.Spool.File.Buffered.{BufFile, write_file, flush_buf, write_all}

-- No call fails.
abbrev pub quiet : ℕ → Option ℕ
quiet n = none

abbrev pub contents : BufFile → List ℕ
contents f = f.bytes ++ f.buffer

nil_of_is_empty : (xs : List ℕ) → is_empty xs ≡ true → xs ≡ []
nil_of_is_empty [] e = refl
nil_of_is_empty (x ∷ xs) e = cc

nil_of_length : (xs : List ℕ) → length xs ≡ 0 → xs ≡ []
nil_of_length [] e = refl
nil_of_length (x ∷ xs) e = absurd (omega (arith, e))

-- The whole content stands in the file, and nothing is buffered.
pub record IsWritten (f f' : BufFile) : Type 0 where
  pub bytes : f'.bytes ≡ contents f
  pub buffer : f'.buffer ≡ []

pub flush_buf-quiet :
    (f : BufFile) → (f' : BufFile) × (flush_buf quiet f ≡ (ok tt, f')) × IsWritten f f'
unfolding flush_buf
flush_buf-quiet f = elim (Bool-cases (is_empty f.buffer)) [
  | inl e ↦
      let nothing = nil_of_is_empty f.buffer e in
      (
        f,
        rw e refl,
        record {
          bytes = sym (ap (λ b. f.bytes ++ b) nothing ∙ append-nil f.bytes);
          buffer = nothing;
        },
      )
  | inr e ↦ (
    record f { bytes = f.bytes ++ f.buffer; buffer = []; calls = suc f.calls },
    rw e refl,
    record { bytes = refl; buffer = refl },
  )
]

swapped : (xs bs cs : List ℕ) → (bs ≡ []) ⊎ (cs ≡ []) → (xs ++ cs) ++ bs ≡ (xs ++ bs) ++ cs
swapped xs bs cs (inl e) = rw e (append-nil (xs ++ cs) ∙ ap (λ l. l ++ cs) (sym (append-nil xs)))
swapped xs bs cs (inr e) = rw e (ap (λ l. l ++ bs) (append-nil xs) ∙ sym (append-nil (xs ++ bs)))

-- What the second step of `write_all` does once there is room.
abbrev stores : ℕ → List ℕ → BufFile → Result ErrorKind (Unit {0}) × BufFile
stores capacity bytes =
    if ltb (length bytes) capacity
    then modify (λ f. record f { buffer = f.buffer ++ bytes })
    else write_file quiet bytes

-- Either buffered or written, the bytes come behind the content.
abbrev Appends : List ℕ → BufFile → Result ErrorKind (Unit {0}) × BufFile → Type 0
Appends bytes f r = (r.0 ≡ ok tt) × (contents r.1 ≡ contents f ++ bytes)

stores-Appends :
    (capacity : ℕ) (bytes : List ℕ) (f : BufFile)
    → (ltb (length bytes) capacity ≡ true) ⊎ ((f.buffer ≡ []) ⊎ (bytes ≡ []))
    → Appends bytes f (stores capacity bytes f)
unfolding write_file
stores-Appends capacity bytes f (inl small) =
    rw small (refl, sym (append_assoc f.bytes f.buffer bytes))
stores-Appends capacity bytes f (inr free) = elim (Bool-cases (ltb (length bytes) capacity)) [
  | inl small ↦ rw small (refl, sym (append_assoc f.bytes f.buffer bytes))
  | inr large ↦ rw large (refl, swapped f.bytes f.buffer bytes free)
]

-- The writer's buffer has room for the bytes, or none is needed.
room :
    (capacity : ℕ) (bytes : List ℕ) (f : BufFile)
    → leb (length bytes) (capacity - length f.buffer) ≡ true
    → (ltb (length bytes) capacity ≡ true) ⊎ ((f.buffer ≡ []) ⊎ (bytes ≡ []))
room capacity bytes f e = elim (dec_lt (length bytes) capacity) [
  | yes h ↦ inl (lt→ltb _ _ h)
  | no h ↦ elim (dec_lt 0 (length f.buffer)) [
    | yes k ↦ inr (inr (nil_of_length bytes (omega (arith, leb→le _ _ e))))
    | no k ↦ inr (inl (nil_of_length f.buffer (omega arith)))
  ]
]

write_all-Appends :
    (capacity : ℕ) (bytes : List ℕ) (f : BufFile)
    → Appends bytes f (write_all quiet capacity bytes f)
unfolding write_all
write_all-Appends capacity bytes f =
    elim (Bool-cases (leb (length bytes) (capacity - length f.buffer))) [
      | inl fits ↦ rw fits (stores-Appends capacity bytes f (room capacity bytes f fits))
      | inr tight ↦
          let (f', flushed, written) = flush_buf-quiet f in
          let (done, grown) = stores-Appends capacity bytes f' (inr (inl written.buffer)) in
          rw (tight, flushed)
            (
              done,
              grown
                  ∙ ap (λ xs. xs ++ bytes)
                      (ap (λ b. f'.bytes ++ b) written.buffer
                        ∙ append-nil f'.bytes
                        ∙ written.bytes),
            )
    ]

-- The sink of the writer takes every write.
pub file-IsSink : (capacity : ℕ) → IsSink BufFile (write_all quiet capacity) contents
file-IsSink capacity = record {
  succeeds = λ bytes f. (write_all-Appends capacity bytes f).0;
  appends = λ bytes f. (write_all-Appends capacity bytes f).1;
}
