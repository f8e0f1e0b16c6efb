-- ===== src/Replay/StateParse.antt =====
-- `parse_bridge_state` of logjetd/src/replay.rs on the text of the resume file, with what it uses of the
-- library's `str`.
use logjet.Base.{
  ℕ, Bool, false, ◌&&◌, ◌||◌, List, [], ◌∷◌, Option, none, some, leb, ◌==◌, if◌then◌else◌, bytes_eq,
  Result, ok, map_ok, ◌>>=◌, ok_or,
}
use logjet.Error.{ErrorKind, invalid_data}
use logjet.Replay.State.{
  BridgeState, parse_u64, unset, stream_id_key, last_seq_key, newline, equals,
}

-- `char::is_whitespace`
unfoldable pub is_whitespace : ℕ → Bool
is_whitespace c =
    (leb 9 c && leb c 13)
    || c == 32
    || c == 0x85
    || c == 0xa0
    || c == 0x1680
    || (leb 0x2000 c && leb c 0x200a)
    || c == 0x2028
    || c == 0x2029
    || c == 0x202f
    || c == 0x205f
    || c == 0x3000

unfoldable pub trim_start : List ℕ → List ℕ
trim_start [] = []
trim_start (c ∷ cs) = let rest = trim_start cs in if is_whitespace c then rest else c ∷ cs

abbrev pub unless_blank : ℕ → List ℕ → List ℕ
unless_blank c [] = if is_whitespace c then [] else c ∷ []
unless_blank c (d ∷ ds) = c ∷ d ∷ ds

unfoldable pub trim_end : List ℕ → List ℕ
trim_end [] = []
trim_end (c ∷ cs) = unless_blank c (trim_end cs)

abbrev pub trim : List ℕ → List ℕ
trim text = trim_end (trim_start text)

abbrev pub onto_first : ℕ → List (List ℕ) → List (List ℕ)
onto_first c [] = (c ∷ []) ∷ []
onto_first c (line ∷ rest) = (c ∷ line) ∷ rest

abbrev pub at_newline : List ℕ → Bool
at_newline [] = false
at_newline (c ∷ cs) = c == newline

-- `str::lines`: a line ends with "\n" or "\r\n".
unfoldable pub lines : List ℕ → List (List ℕ)
lines [] = []
lines (c ∷ cs) =
    let rest = lines cs in
    if c == newline then [] ∷ rest else if c == 13 && at_newline cs then rest else onto_first c rest

abbrev pub onto_key : ℕ → Option (List ℕ × List ℕ) → Option (List ℕ × List ℕ)
onto_key c none = none
onto_key c (some (key, value)) = some (c ∷ key, value)

-- `split_once('=')`
unfoldable pub split_once : List ℕ → Option (List ℕ × List ℕ)
split_once [] = none
split_once (c ∷ cs) =
    let rest = split_once cs in if c == equals then some ([], cs) else onto_key c rest

pub record Fields : Type 0 where
  pub stream_id : Option (Option ℕ)
  pub last_seq : Option ℕ

unfoldable pub id_value : List ℕ → Result ErrorKind (Option ℕ)
id_value value =
    if bytes_eq value unset then ok none else map_ok some (ok_or (parse_u64 value) invalid_data)

unfoldable pub read_line : Option (List ℕ × List ℕ) → Fields → Result ErrorKind Fields
read_line none fields = ok fields
read_line (some (key, value)) fields =
    if bytes_eq (trim key) stream_id_key
    then map_ok (λ id. record fields { stream_id = some id }) (id_value (trim value))
    else if bytes_eq (trim key) last_seq_key
    then map_ok (λ seq. record fields { last_seq = some seq })
        (ok_or (parse_u64 (trim value)) invalid_data)
    else ok fields

unfoldable pub read_lines : List (List ℕ) → Fields → Result ErrorKind Fields
read_lines [] fields = ok fields
read_lines (line ∷ rest) fields = read_line (split_once line) fields >>= read_lines rest

abbrev pub or_none : Option (Option ℕ) → Option ℕ
or_none none = none
or_none (some id) = id

abbrev pub state_of : Fields → Result ErrorKind BridgeState
state_of fields =
    map_ok (λ seq. record { stream_id = or_none fields.stream_id; last_seq = seq })
      (ok_or fields.last_seq invalid_data)

abbrev pub from_lines : Option ℕ → List ℕ → Result ErrorKind BridgeState
from_lines (some last_seq) text = ok (record { stream_id = none; last_seq = last_seq })
from_lines none text =
    read_lines (lines text) (record { stream_id = none; last_seq = none }) >>= state_of

-- A bare number is the format before the stream identity.
unfoldable pub parse_bridge_state : List ℕ → Result ErrorKind BridgeState
parse_bridge_state text = from_lines (parse_u64 (trim text)) text
