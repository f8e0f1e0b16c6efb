-- ===== src/Protocol/ReplayAhead.antt =====
-- The replay messages of logjetd/src/protocol.rs read wherever they lie ahead.
use logjet.Base.{ℕ, ◌+◌, ◌≡◌, refl, List, ◌++◌, ok, IsU64, from_le-le_bytes}
use logjet.Source.{Source, ahead, seek}
use logjet.Protocol.Replay.{
  ReplayRequest, ReplayHello, replay_request_magic, replay_hello_magic, replay_ack_magic,
  request_header, hello_header, ack_header, read_replay_request, read_replay_hello, read_replay_ack,
}
use logjet.Protocol.ReplayRoundTrip.{read_header-sent, flag_byte-read}

-- What the three writers send.
abbrev pub request_bytes : ReplayRequest → List ℕ
request_bytes request = replay_request_magic ++ request_header request

abbrev pub hello_bytes : ReplayHello → List ℕ
hello_bytes hello = replay_hello_magic ++ hello_header hello

abbrev pub ack_bytes : ℕ → List ℕ
ack_bytes seq = replay_ack_magic ++ ack_header (record { ack_seq = seq })

pub read_replay_ack-ahead :
    (seq : ℕ) (rest : List ℕ) (s : Source)
    → IsU64 seq
    → ahead s ≡ ack_bytes seq ++ rest
    → (s' : Source) × (read_replay_ack s ≡ (ok (record { ack_seq = seq }), s')) × (ahead s' ≡ rest)
unfolding read_replay_ack
read_replay_ack-ahead seq rest s h at =
    let (read, behind) =
      read_header-sent replay_ack_magic (ack_header (record { ack_seq = seq })) rest 16 s refl refl
        refl at in
    let s' = seek (s.pos + 8 + 16) s in
    (s', rw read (λ i. (ok (record { ack_seq = from_le-le_bytes 8 seq h i }), s')), behind)

pub read_replay_request-ahead :
    (request : ReplayRequest) (rest : List ℕ) (s : Source)
    → IsU64 request.from_seq
    → ahead s ≡ request_bytes request ++ rest
    → (s' : Source) × (read_replay_request s ≡ (ok request, s')) × (ahead s' ≡ rest)
unfolding read_replay_request
read_replay_request-ahead request rest s h at =
    let (read, behind) =
      read_header-sent replay_request_magic (request_header request) rest 16 s refl refl refl at in
    let s' = seek (s.pos + 8 + 16) s in
    (
      s',
      rw read (λ i. (
        ok (record {
          from_seq = from_le-le_bytes 8 request.from_seq h i;
          consume = flag_byte-read request.consume i;
        }),
        s',
      )),
      behind,
    )

pub read_replay_hello-ahead :
    (hello : ReplayHello) (rest : List ℕ) (s : Source)
    → IsU64 hello.stream_id
    → IsU64 hello.first_seq
    → IsU64 hello.last_seq
    → ahead s ≡ hello_bytes hello ++ rest
    → (s' : Source) × (read_replay_hello s ≡ (ok hello, s')) × (ahead s' ≡ rest)
unfolding read_replay_hello
read_replay_hello-ahead hello rest s hi hf hl at =
    let (read, behind) =
      read_header-sent replay_hello_magic (hello_header hello) rest 32 s refl refl refl at in
    let s' = seek (s.pos + 8 + 32) s in
    (
      s',
      rw read (λ i. (
        ok (record {
          stream_id = from_le-le_bytes 8 hello.stream_id hi i;
          first_seq = from_le-le_bytes 8 hello.first_seq hf i;
          last_seq = from_le-le_bytes 8 hello.last_seq hl i;
        }),
        s',
      )),
      behind,
    )
