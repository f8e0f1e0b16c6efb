-- ===== src/Spool/File/Newer.antt =====
-- The records of a `FileSpool` (logjetd/src/spool.rs) behind a sequence number, and what the loops over
-- a segment's records find of them.
use logjet.Base.{
  ℕ, ◌≤◌, ◌≡◌, refl, ap, ◌∙◌, subst, ◌⊎◌, inl, inr, List, [], ◌∷◌, ◌++◌, All, Option, none, some,
  length, length-append, ltb, leb, if◌then◌else◌, ok, arith, Bool-cases, true, false,
}
use logjet.Record.{OwnedRecord}
use logjet.Codec.{Codec, Libraries, LibraryLaws}
use logjet.Reader.State.{default_config}
use logjet.Log.Writing.{room_for}
use logjet.Log.RoundTrip.{file_room, file_room-append, room_for-append, block_room}
use logjet.Spool.File.Records.{while_records, reader_of}
use logjet.Spool.File.Operations.{note_seq, segment_max_seq}
use logjet.Spool.File.Cursor.{newer_than}
use logjet.Spool.File.Reading.{fold_while, while_records-Yields}
use logjet.Spool.File.Sink.{quiet}
use logjet.Spool.File.Holds.{last_seq, joined, config_of, HoldsFile, IsReadable, HoldsFile-Yields}

-- The records with numbers above this one.
unfoldable pub newer : ℕ → List OwnedRecord → List OwnedRecord
newer n [] = []
newer n (r ∷ rs) = if ltb n r.seq then r ∷ newer n rs else newer n rs

abbrev pub head : List OwnedRecord → Option OwnedRecord
head [] = none
head (r ∷ rs) = some r

pub newer-append :
    (n : ℕ) (xs ys : List OwnedRecord) → newer n (xs ++ ys) ≡ newer n xs ++ newer n ys
unfolding newer
newer-append n [] ys = refl
newer-append n (x ∷ xs) ys = ground (arith, newer-append n xs ys)

pub newer-below : (n : ℕ) (rs : List OwnedRecord) → All (λ r. r.seq ≤ n) rs → newer n rs ≡ []
unfolding newer
newer-below n [] h = refl
newer-below n (r ∷ rs) (hr, h) = ground (arith, newer-below n rs h)

pub newer-newer : (m n : ℕ) (rs : List OwnedRecord) → m ≤ n → newer n (newer m rs) ≡ newer n rs
unfolding newer
newer-newer m n [] h = refl
newer-newer m n (r ∷ rs) h = ground (arith, newer-newer m n rs h)

abbrev pub as_end : Option OwnedRecord → Unit {0} ⊎ OwnedRecord
as_end none = inl tt
as_end (some r) = inr r

fold_while-newer :
    (n : ℕ) (rs : List OwnedRecord) → fold_while (newer_than n) tt rs ≡ as_end (head (newer n rs))
unfolding fold_while newer
fold_while-newer n [] = refl
fold_while-newer n (r ∷ rs) = elim (Bool-cases (leb r.seq n)) [
  | inl old ↦ rw (old, let e : ltb n r.seq ≡ false = ground arith in e) (fold_while-newer n rs)
  | inr new ↦ rw (new, let e : ltb n r.seq ≡ true = ground arith in e) refl
]

fold_while-last :
    (before : Option ℕ) (rs : List OwnedRecord)
    → fold_while note_seq before rs ≡ inl (last_seq before rs)
unfolding fold_while
fold_while-last before [] = refl
fold_while-last before (r ∷ rs) = fold_while-last (some r.seq) rs

-- At most the room and the number of the others.
pub record IsPart (alignment : ℕ) (xs ys : List OwnedRecord) : Type 0 where
  pub files :
      file_room (block_room default_config (config_of Codec.raw alignment)) xs
      ≤ file_room (block_room default_config (config_of Codec.raw alignment)) ys
  pub rooms : room_for xs ≤ room_for ys
  pub lengths : length xs ≤ length ys

module _ (alignment : ℕ) where
  pub IsPart-same : (xs ys : List OwnedRecord) → xs ≡ ys → IsPart alignment xs ys
  IsPart-same xs ys e =
      subst (IsPart alignment xs) e
        (record { files = omega arith; rooms = omega arith; lengths = omega arith })

  pub IsPart-trans :
      (xs ys zs : List OwnedRecord)
      → IsPart alignment xs ys
      → IsPart alignment ys zs
      → IsPart alignment xs zs
  IsPart-trans xs ys zs h k = record {
    files = omega (arith, h.files, k.files);
    rooms = omega (arith, h.rooms, k.rooms);
    lengths = omega (arith, h.lengths, k.lengths);
  }

  pub IsPart-front : (xs ys : List OwnedRecord) → IsPart alignment xs (xs ++ ys)
  IsPart-front xs ys = record {
    files =
        omega (
          arith,
          file_room-append (block_room default_config (config_of Codec.raw alignment)) xs ys,
        );
    rooms = omega (arith, room_for-append xs ys);
    lengths = omega (arith, length-append xs ys);
  }

  pub IsPart-append :
      (xs ys zs : List OwnedRecord)
      → IsPart alignment xs ys
      → IsPart alignment (xs ++ zs) (ys ++ zs)
  IsPart-append xs ys zs h = record {
    files = omega (
      arith,
      h.files,
      file_room-append (block_room default_config (config_of Codec.raw alignment)) xs zs,
      file_room-append (block_room default_config (config_of Codec.raw alignment)) ys zs,
    );
    rooms = omega (arith, h.rooms, room_for-append xs zs, room_for-append ys zs);
    lengths = omega (arith, h.lengths, length-append xs zs, length-append ys zs);
  }

module _ (lib : Libraries) (laws : LibraryLaws lib) (codec : Codec) (alignment rounds : ℕ) where
  pub IsReadable-parts :
      (xs ys : List OwnedRecord)
      → IsReadable lib codec alignment rounds (xs ++ ys)
      → IsReadable lib codec alignment rounds xs × IsReadable lib codec alignment rounds ys
  IsReadable-parts xs ys h =
      let files = file_room-append (block_room default_config (config_of codec alignment)) xs ys in
      let rooms = room_for-append xs ys in
      let lengths = length-append xs ys in
      (
        record {
          short = omega (arith, h.short, files);
          few = omega (arith, h.few, rooms);
          fit = omega (arith, h.fit, lengths);
        },
        record {
          short = omega (arith, h.short, files);
          few = omega (arith, h.few, rooms);
          fit = omega (arith, h.fit, lengths);
        },
      )

  pub IsPart-IsReadable :
      (xs ys : List OwnedRecord)
      → IsPart alignment xs ys
      → IsReadable lib codec alignment rounds ys
      → IsReadable lib codec alignment rounds xs
  IsPart-IsReadable xs ys h readable = record {
    short = omega (arith, h.files, readable.short);
    few = omega (arith, h.rooms, readable.few);
    fit = omega (arith, h.lengths, readable.fit);
  }

  pub IsReadable-each :
      (rss : List (List OwnedRecord))
      → IsReadable lib codec alignment rounds (joined rss)
      → All (IsReadable lib codec alignment rounds) rss
  IsReadable-each [] h = tt
  IsReadable-each (rs ∷ rss) h =
      let (hr, hrs) = IsReadable-parts rs (joined rss) h in (hr, IsReadable-each rss hrs)

  -- The search in one file.
  pub while_records-newer :
      (n : ℕ) (bytes : List ℕ) (rs : List OwnedRecord)
      → HoldsFile lib codec alignment bytes rs
      → IsReadable lib codec alignment rounds rs
      → while_records (newer_than n) lib rounds tt (reader_of bytes)
        ≡ ok (as_end (head (newer n rs)))
  while_records-newer n bytes rs h readable =
      while_records-Yields (newer_than n) lib rs rounds tt (reader_of bytes) readable.fit
        (HoldsFile-Yields lib codec alignment bytes rs laws h readable.short readable.few)
      ∙ ap ok (fold_while-newer n rs)

  pub segment_max_seq-last :
      (capacity : ℕ) (bytes : List ℕ) (rs : List OwnedRecord)
      → HoldsFile lib codec alignment bytes rs
      → IsReadable lib codec alignment rounds rs
      → segment_max_seq lib capacity quiet rounds bytes ≡ ok (last_seq none rs)
  unfolding segment_max_seq
  segment_max_seq-last capacity bytes rs h readable =
      rw
        (while_records-Yields note_seq lib rs rounds none (reader_of bytes) readable.fit
            (HoldsFile-Yields lib codec alignment bytes rs laws h readable.short readable.few)
          ∙ ap ok (fold_while-last none rs))
        refl
