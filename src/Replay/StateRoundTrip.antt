-- ===== src/Replay/StateRoundTrip.antt =====
-- The resume file of the bridge (logjetd/src/replay.rs) reads back.
use logjet.Base.{
  ℕ, zero, suc, ◌+◌, ◌*◌, ◌/◌, ◌%◌, ◌^◌, ◌≤◌, ◌<◌, ◌≡◌, refl, sym, ap, ◌∙◌, subst, false, List, [],
  ◌∷◌, ◌++◌, Option, none, some, ltb, ◌==◌, Bool-cases, ltb→lt, bytes_eq, ok, inl, inr, arith, All,
  All-append, IsU64,
}
use logjet.Replay.State.{
  BridgeState, digits, to_string, push_digit, push_to, push_all, parse_u64, unset, stream_id_key,
  last_seq_key, id_text, newline, equals, bridge_state_text,
}
use logjet.Replay.StateParse.{
  is_whitespace, trim_start, trim_end, trim, unless_blank, lines, split_once, Fields, id_value,
  read_line, read_lines, parse_bridge_state,
}

abbrev IsDigit : ℕ → Type 0
IsDigit c = (48 ≤ c) × (c ≤ 57)

-- A character that is neither blank nor outside ASCII.
abbrev IsVisible : ℕ → Type 0
IsVisible c = (32 < c) × (c < 127)

push_all-append :
    (n : Option ℕ) (xs ys : List ℕ) → push_all n (xs ++ ys) ≡ push_all (push_all n xs) ys
push_all-append n [] ys = refl
push_all-append n (x ∷ xs) ys = push_all-append (push_to n x) xs ys

push_all-none : (xs : List ℕ) → push_all none xs ≡ none
push_all-none [] = refl
push_all-none (x ∷ xs) = push_all-none xs

push_digit-digit :
    (n d : ℕ) → d < 10 → n * 10 + d < 2 ^ 64 → push_digit n (48 + d) ≡ some (n * 10 + d)
unfolding push_digit
push_digit-digit n d small fits = ground arith

push_all-digits : (k n : ℕ) → n < 10 ^ k → n < 2 ^ 64 → push_all (some 0) (digits k n) ≡ some n
unfolding digits
push_all-digits zero n h fits = ap some (omega (arith, h))
push_all-digits (suc k) n h fits = elim (Bool-cases (ltb n 10)) [
  | inl e ↦
      rw e (push_digit-digit 0 n (ltb→lt n 10 e) (omega (arith, fits)) ∙ ap some (omega arith))
  | inr e ↦ rw e (
      push_all-append (some 0) (digits k (n / 10)) ((48 + n % 10) ∷ [])
      ∙ ap (λ o. push_to o (48 + n % 10))
          (push_all-digits k (n / 10) (omega (arith, h)) (omega (arith, fits)))
      ∙ push_digit-digit (n / 10) (n % 10) (omega arith) (omega (arith, fits))
      ∙ ap some (omega arith))
]

digits-IsDigit : (k n : ℕ) → All IsDigit (digits k n)
unfolding digits
digits-IsDigit zero n = tt
digits-IsDigit (suc k) n = elim (Bool-cases (ltb n 10)) [
  | inl e ↦ rw e ((omega arith, omega (arith, ltb→lt n 10 e)), tt)
  | inr e ↦ rw e (
      All-append IsDigit (digits k (n / 10)) ((48 + n % 10) ∷ []) (digits-IsDigit k (n / 10))
        ((omega arith, omega arith), tt))
]

parse_u64-digit :
    (c : ℕ) (cs : List ℕ) → IsDigit c → parse_u64 (c ∷ cs) ≡ push_all (some 0) (c ∷ cs)
unfolding parse_u64
parse_u64-digit c cs h = let no_sign : (c == 43) ≡ false = ground arith in rw no_sign

is_whitespace-visible : (c : ℕ) → IsVisible c → is_whitespace c ≡ false
unfolding is_whitespace
is_whitespace-visible c h = ground arith

not-newline : (c : ℕ) → IsVisible c → (c == newline) ≡ false
not-newline c h = ground arith

not-return : (c : ℕ) → IsVisible c → (c == 13) ≡ false
not-return c h = ground arith

trim_start-visible : (c : ℕ) (cs : List ℕ) → IsVisible c → trim_start (c ∷ cs) ≡ c ∷ cs
unfolding trim_start
trim_start-visible c cs h = rw (is_whitespace-visible c h)

trim_end-visible : (cs : List ℕ) → All IsVisible cs → trim_end cs ≡ cs
unfolding trim_end
trim_end-visible [] h = refl
trim_end-visible (c ∷ []) (hc, h) = rw (is_whitespace-visible c hc)
trim_end-visible (c ∷ (d ∷ ds)) (hc, h) = ap (unless_blank c) (trim_end-visible (d ∷ ds) h)

trim-visible : (cs : List ℕ) → All IsVisible cs → trim cs ≡ cs
trim-visible [] h = unfold trim_start in unfold trim_end in refl
trim-visible (c ∷ cs) h = ap trim_end (trim_start-visible c cs h.0) ∙ trim_end-visible (c ∷ cs) h

-- A line of visible characters in front of others.
lines-visible :
    (cs rest : List ℕ) → All IsVisible cs → lines (cs ++ (newline ∷ rest)) ≡ cs ∷ lines rest
unfolding lines
lines-visible [] rest h = refl
lines-visible (c ∷ cs) rest (hc, h) =
    rw (not-newline c hc, not-return c hc, lines-visible cs rest h)

IsDigit-IsVisible : (cs : List ℕ) → All IsDigit cs → All IsVisible cs
IsDigit-IsVisible [] h = tt
IsDigit-IsVisible (c ∷ cs) ((lo, hi), h) =
    ((omega (arith, lo), omega (arith, hi)), IsDigit-IsVisible cs h)

-- Text that begins with the "s" of a key is no bare number.
parse_u64-key : (cs : List ℕ) → parse_u64 (trim (115 ∷ cs)) ≡ none
unfolding parse_u64 trim_start trim_end push_digit is_whitespace
parse_u64-key cs = by_end (trim_end cs)
  where
    by_end : (end : List ℕ) → parse_u64 (unless_blank 115 end) ≡ none
    by_end [] = refl
    by_end (d ∷ ds) = push_all-none (d ∷ ds)

append-cons : (xs : List ℕ) (x : ℕ) → (c : ℕ) × (cs : List ℕ) × (xs ++ (x ∷ []) ≡ c ∷ cs)
append-cons [] x = (x, [], refl)
append-cons (c ∷ cs) x = (c, cs ++ (x ∷ []), refl)

digits-cons : (k n : ℕ) → (c : ℕ) × (cs : List ℕ) × (digits (suc k) n ≡ c ∷ cs)
unfolding digits
digits-cons k n = elim (Bool-cases (ltb n 10)) [
  | inl e ↦ (48 + n, [], rw e refl)
  | inr e ↦ let (c, cs, f) = append-cons (digits k (n / 10)) (48 + n % 10) in (c, cs, rw e f)
]

pub parse_u64-to_string : (n : ℕ) → IsU64 n → parse_u64 (to_string n) ≡ some n
parse_u64-to_string n fits =
    let (c, cs, e) = digits-cons 19 n in
    let are_digits = subst (All IsDigit) e (digits-IsDigit 20 n) in
    ap parse_u64 e
    ∙ parse_u64-digit c cs are_digits.0
    ∙ ap (push_all (some 0)) (sym e)
    ∙ push_all-digits 20 n (omega (arith, fits)) fits

bytes_eq-digits : (cs : List ℕ) → All IsDigit cs → bytes_eq cs unset ≡ false
bytes_eq-digits [] h = refl
bytes_eq-digits (c ∷ cs) (hc, h) = let other : (c == 117) ≡ false = ground arith in rw other

to_string-IsVisible : (n : ℕ) → All IsVisible (to_string n)
to_string-IsVisible n = IsDigit-IsVisible (to_string n) (digits-IsDigit 20 n)

pub trim-to_string : (n : ℕ) → trim (to_string n) ≡ to_string n
trim-to_string n = trim-visible (to_string n) (to_string-IsVisible n)

abbrev pub IsU64Option : Option ℕ → Type 0
IsU64Option none = Unit
IsU64Option (some id) = IsU64 id

unset-IsVisible : All IsVisible unset
unset-IsVisible = omega arith

id_text-IsVisible : (id : Option ℕ) → All IsVisible (id_text id)
id_text-IsVisible none = unset-IsVisible
id_text-IsVisible (some id) = to_string-IsVisible id

id_value-id_text : (id : Option ℕ) → IsU64Option id → id_value (id_text id) ≡ ok id
unfolding id_value
id_value-id_text none h = refl
id_value-id_text (some id) h =
    rw (bytes_eq-digits (to_string id) (digits-IsDigit 20 id), parse_u64-to_string id h)

abbrev id_line : Option ℕ → List ℕ
id_line id = stream_id_key ++ (equals ∷ id_text id)

abbrev seq_line : ℕ → List ℕ
seq_line seq = last_seq_key ++ (equals ∷ to_string seq)

id_line-IsVisible : (id : Option ℕ) → All IsVisible (id_line id)
id_line-IsVisible id =
    All-append IsVisible stream_id_key (equals ∷ id_text id) (omega arith)
      (omega arith, id_text-IsVisible id)

seq_line-IsVisible : (seq : ℕ) → All IsVisible (seq_line seq)
seq_line-IsVisible seq =
    All-append IsVisible last_seq_key (equals ∷ to_string seq) (omega arith)
      (omega arith, to_string-IsVisible seq)

lines-bridge_state_text :
    (state : BridgeState)
    → lines (bridge_state_text state) ≡ id_line state.stream_id ∷ seq_line state.last_seq ∷ []
unfolding bridge_state_text
lines-bridge_state_text state =
    lines-visible (id_line state.stream_id) (seq_line state.last_seq ++ (newline ∷ []))
      (id_line-IsVisible state.stream_id)
    ∙ ap (λ ls. id_line state.stream_id ∷ ls)
        (lines-visible (seq_line state.last_seq) [] (seq_line-IsVisible state.last_seq)
          ∙ (unfold lines in refl))

read_line-id_line :
    (id : Option ℕ) (fields : Fields)
    → IsU64Option id
    → read_line (split_once (id_line id)) fields ≡ ok (record fields { stream_id = some id })
unfolding read_line split_once trim_start trim_end is_whitespace
read_line-id_line id fields h =
    rw (trim-visible (id_text id) (id_text-IsVisible id), id_value-id_text id h) refl

read_line-seq_line :
    (seq : ℕ) (fields : Fields)
    → IsU64 seq
    → read_line (split_once (seq_line seq)) fields ≡ ok (record fields { last_seq = some seq })
unfolding read_line split_once trim_start trim_end is_whitespace
read_line-seq_line seq fields h =
    rw (trim-visible (to_string seq) (to_string-IsVisible seq), parse_u64-to_string seq h) refl

bridge_state_text-no_number :
    (state : BridgeState) → parse_u64 (trim (bridge_state_text state)) ≡ none
unfolding bridge_state_text
bridge_state_text-no_number state = parse_u64-key _

-- A bridge that starts again resumes where it was: `parse_bridge_state` reads back the state from the
-- text that `write_bridge_state` wrote, with or without a stream identity, if its numbers are u64s.
pub parse_bridge_state-bridge_state_text :
    (state : BridgeState)
    → IsU64Option state.stream_id
    → IsU64 state.last_seq
    → parse_bridge_state (bridge_state_text state) ≡ ok state
unfolding parse_bridge_state read_lines
parse_bridge_state-bridge_state_text state hid hseq =
    let no_number = bridge_state_text-no_number state in
    rw
      (
        no_number,
        lines-bridge_state_text state,
        read_line-id_line state.stream_id (record { stream_id = none; last_seq = none }) hid,
        read_line-seq_line state.last_seq
            (record { stream_id = some state.stream_id; last_seq = none }) hseq,
      )
      refl
