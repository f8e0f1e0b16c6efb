-- ===== src/Spool/File/Names.antt =====
-- The names of the segment files of logjetd/src/spool.rs. A text is the list of its characters' codes,
-- and a path is the name in its directory.
use logjet.Base.{
  ℕ, zero, suc, ◌-◌, ◌≡◌, refl, sym, ap, ◌∙◌, List, [], ◌∷◌, ◌++◌, append_assoc, Option, none, some,
  Bool, true, false, ◌&&◌, leb, ◌==◌, if◌then◌else◌, length, length-append, take, take-append, drop,
  drop-append, bytes_eq, bytes_eq_refl, IsU64, arith, le→leb,
}
use logjet.Replay.State.{to_string, parse_u64}
use logjet.Replay.StateRoundTrip.{parse_u64-to_string}

-- ".logjet"
abbrev pub extension : List ℕ
extension = 46 ∷ 108 ∷ 111 ∷ 103 ∷ 106 ∷ 101 ∷ 116 ∷ []

abbrev pub dash : ℕ
dash = 45

abbrev pub starts_with : List ℕ → List ℕ → Bool
starts_with name prefix = bytes_eq (take (length prefix) name) prefix

abbrev pub ends_with : List ℕ → List ℕ → Bool
ends_with name suffix =
    leb (length suffix) (length name) && bytes_eq (drop (length name - length suffix) name) suffix

-- `strip_suffix`, or the whole name.
unfoldable pub derive_base_stem : List ℕ → List ℕ
derive_base_stem file_name =
    if ends_with file_name extension
    then take (length file_name - length extension) file_name
    else file_name

-- The file name of `segment_path`.
unfoldable pub segment_path : List ℕ → ℕ → List ℕ
segment_path base_stem id =
    if id == 0 then base_stem ++ extension else base_stem ++ (dash ∷ (to_string id ++ extension))

-- The part of the name between the stem's dash and the extension.
abbrev pub value_in : List ℕ → List ℕ → List ℕ
value_in name prefix =
    take (length name - length extension - length prefix) (drop (length prefix) name)

unfoldable pub parse_segment_id : List ℕ → List ℕ → Option ℕ
parse_segment_id name base_stem =
    let prefix = base_stem ++ (dash ∷ []) in
    if bytes_eq name (base_stem ++ extension)
    then some 0
    else if starts_with name prefix && ends_with name extension
    then parse_u64 (value_in name prefix)
    else none

bytes_eq-append : (xs ys zs : List ℕ) → bytes_eq (xs ++ ys) (xs ++ zs) ≡ bytes_eq ys zs
bytes_eq-append [] ys zs = refl
bytes_eq-append (x ∷ xs) ys zs = ground (arith, bytes_eq-append xs ys zs)

starts_with-prefix : (prefix rest : List ℕ) → starts_with (prefix ++ rest) prefix ≡ true
starts_with-prefix prefix rest = rw (take-append prefix rest) (bytes_eq_refl prefix)

split_len : (xs ys : List ℕ) → length (xs ++ ys) - length ys ≡ length xs
split_len xs ys = omega (arith, length-append xs ys)

ends_with-suffix : (front suffix : List ℕ) → ends_with (front ++ suffix) suffix ≡ true
ends_with-suffix front suffix =
    rw (split_len front suffix, drop-append front suffix, bytes_eq_refl suffix)
      (rw
        (le→leb (length suffix) (length (front ++ suffix))
          (omega (arith, length-append front suffix)))
        refl)

value_in-middle : (prefix value : List ℕ) → value_in (prefix ++ (value ++ extension)) prefix ≡ value
value_in-middle prefix value = rw (drop-append prefix (value ++ extension)) (
    rw
      (let e : length (prefix ++ (value ++ extension)) - length extension - length prefix
            ≡ length value =
          omega (arith, length-append prefix (value ++ extension), length-append value extension) in
        e)
      (take-append value extension))

-- A name with a number is not the name of segment 0.
numbered-ne-first :
    (base_stem rest : List ℕ)
    → bytes_eq (base_stem ++ (dash ∷ rest)) (base_stem ++ extension) ≡ false
numbered-ne-first base_stem rest = bytes_eq-append base_stem (dash ∷ rest) extension

parse_segment_id-numbered :
    (base_stem : List ℕ) (id : ℕ)
    → IsU64 id
    → parse_segment_id (base_stem ++ (dash ∷ (to_string id ++ extension))) base_stem ≡ some id
unfolding parse_segment_id
parse_segment_id-numbered base_stem id h =
    let prefix = base_stem ++ (dash ∷ []) in
    let regroup : base_stem ++ (dash ∷ (to_string id ++ extension))
        ≡ prefix ++ (to_string id ++ extension) =
      sym (append_assoc base_stem (dash ∷ []) (to_string id ++ extension)) in
    let regroup_end : prefix ++ (to_string id ++ extension)
        ≡ (prefix ++ to_string id) ++ extension =
      sym (append_assoc prefix (to_string id) extension) in
    let begins : starts_with (base_stem ++ (dash ∷ (to_string id ++ extension))) prefix ≡ true =
      ap (λ name. starts_with name prefix) regroup
      ∙ starts_with-prefix prefix (to_string id ++ extension) in
    let ends : ends_with (base_stem ++ (dash ∷ (to_string id ++ extension))) extension ≡ true =
      ap (λ name. ends_with name extension) (regroup ∙ regroup_end)
      ∙ ends_with-suffix (prefix ++ to_string id) extension in
    let value : value_in (base_stem ++ (dash ∷ (to_string id ++ extension))) prefix ≡ to_string id =
      ap (λ name. value_in name prefix) regroup ∙ value_in-middle prefix (to_string id) in
    rw (numbered-ne-first base_stem (to_string id ++ extension))
      (rw (begins, ends) (ap parse_u64 value ∙ parse_u64-to_string id h))

parsed_name :
    (base_stem : List ℕ) (id : ℕ)
    → IsU64 id
    → parse_segment_id (segment_path base_stem id) base_stem ≡ some id
unfolding segment_path
parsed_name base_stem zero h =
    unfold parse_segment_id in (rw (bytes_eq_refl (base_stem ++ extension)) refl)
parsed_name base_stem (suc id) h =
    rw (let e : (suc id == 0) ≡ false = ground arith in e)
      (parse_segment_id-numbered base_stem (suc id) h)

derive_base_stem-first :
    (base_stem : List ℕ) → derive_base_stem (base_stem ++ extension) ≡ base_stem
unfolding derive_base_stem
derive_base_stem-first base_stem =
    rw (ends_with-suffix base_stem extension, split_len base_stem extension)
      (take-append base_stem extension)

-- `parse_segment_id` reads from the name that `segment_path` makes for a segment the segment's number,
-- if it is a u64, and the name of segment 0 is one that `derive_base_stem` takes to the stem.
pub parse_segment_id-segment_path :
    (base_stem : List ℕ) (id : ℕ)
    → IsU64 id
    → (parse_segment_id (segment_path base_stem id) base_stem ≡ some id)
      × (derive_base_stem (segment_path base_stem 0) ≡ base_stem)
parse_segment_id-segment_path base_stem id h =
    (parsed_name base_stem id h, unfold segment_path in derive_base_stem-first base_stem)
