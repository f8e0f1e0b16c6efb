-- ===== src/Replay/State.antt =====
-- `BridgeState` of logjetd/src/replay.rs and its text in the resume file. A text is the list of its
-- characters' codes.
use logjet.Base.{
  ℕ, zero, suc, ◌+◌, ◌-◌, ◌*◌, ◌/◌, ◌%◌, ◌^◌, ◌&&◌, List, [], ◌∷◌, ◌++◌, Option, none, some, ltb,
  leb, ◌==◌, if◌then◌else◌,
}
use logjet.Protocol.Replay.{ReplayHello}

pub record BridgeState : Type 0 where
  pub stream_id : Option ℕ
  pub last_seq : ℕ

-- The saved sequence number, after the hello.
abbrev pub resumed : Option ℕ → ℕ → ReplayHello → ℕ
resumed (some saved_stream_id) last_seq hello =
    if saved_stream_id == hello.stream_id then last_seq else 0
resumed none last_seq hello =
    if ltb 0 last_seq && (ltb 0 hello.last_seq && ltb hello.last_seq last_seq) then 0 else last_seq

unfoldable pub reconcile_bridge_state : ReplayHello → BridgeState → BridgeState
reconcile_bridge_state hello state = record {
  stream_id = some hello.stream_id;
  last_seq = resumed state.stream_id state.last_seq hello;
}

-- `u64::to_string`: a u64 has at most 20 digits.
unfoldable pub digits : ℕ → ℕ → List ℕ
digits zero n = []
digits (suc more) n =
    let front = digits more (n / 10) in
    if ltb n 10 then (48 + n) ∷ [] else front ++ ((48 + n % 10) ∷ [])

abbrev pub to_string : ℕ → List ℕ
to_string n = digits 20 n

-- The step of `u64::from_str`: one more digit, if it is one and the number still fits.
unfoldable pub push_digit : ℕ → ℕ → Option ℕ
push_digit n c =
    if leb 48 c && (leb c 57 && ltb (n * 10 + (c - 48)) (2 ^ 64))
    then some (n * 10 + (c - 48))
    else none

abbrev pub push_to : Option ℕ → ℕ → Option ℕ
push_to none c = none
push_to (some n) c = push_digit n c

abbrev pub push_all : Option ℕ → List ℕ → Option ℕ
push_all n [] = n
push_all n (c ∷ cs) = push_all (push_to n c) cs

-- `str::parse::<u64>`: a `+` may stand in front, and at least one digit follows.
abbrev unsigned : List ℕ → Option ℕ
unsigned [] = none
unsigned (c ∷ cs) = push_all (some 0) (c ∷ cs)

unfoldable pub parse_u64 : List ℕ → Option ℕ
parse_u64 [] = none
parse_u64 (c ∷ cs) = if c == 43 then unsigned cs else unsigned (c ∷ cs)

-- "unset", "stream_id" and "last_seq"
abbrev pub unset : List ℕ
unset = 117 ∷ 110 ∷ 115 ∷ 101 ∷ 116 ∷ []

abbrev pub stream_id_key : List ℕ
stream_id_key = 115 ∷ 116 ∷ 114 ∷ 101 ∷ 97 ∷ 109 ∷ 95 ∷ 105 ∷ 100 ∷ []

abbrev pub last_seq_key : List ℕ
last_seq_key = 108 ∷ 97 ∷ 115 ∷ 116 ∷ 95 ∷ 115 ∷ 101 ∷ 113 ∷ []

abbrev pub newline : ℕ
newline = 10

abbrev pub equals : ℕ
equals = 61

abbrev pub id_text : Option ℕ → List ℕ
id_text none = unset
id_text (some id) = to_string id

-- The text that `write_bridge_state` writes.
unfoldable pub bridge_state_text : BridgeState → List ℕ
bridge_state_text state =
    stream_id_key
    ++ (equals
        ∷ (id_text state.stream_id
            ++ (newline
                ∷ (last_seq_key ++ (equals ∷ (to_string state.last_seq ++ (newline ∷ [])))))))
