-- ===== src/Protocol/ReplayRoundTrip.antt =====
-- The replay messages of logjetd/src/protocol.rs read back from what their writers send.
use logjet.Base.{
  ℕ, ◌+◌, ◌≡◌, refl, sym, ap, ◌∙◌, Bool, true, false, List, [], ◌∷◌, ◌++◌, ◌==◌, length, drop,
  drop-append, append-nil, not, bit_and, bytes_eq_refl, Result, ok, IsU64, from_le-le_bytes,
}
use logjet.Base.Exec.{◌>>◌}
use logjet.Error.{ErrorKind}
use logjet.Source.{Source, ahead, seek, read_at, ahead_at}
use logjet.Protocol.Frame.{field}
use logjet.Protocol.Replay.{
  replay_request_magic, replay_hello_magic, replay_ack_magic, replay_version, ReplayRequest,
  ReplayHello, ReplayAck, read_header, read_replay_request, read_replay_hello, read_replay_ack,
  request_header, hello_header, ack_header, flag_byte, write_replay_request, write_replay_hello,
  write_replay_ack,
}

-- A connection is what has been sent on it and not been received.
abbrev pub send : List ℕ → Source → Result ErrorKind (Unit {0}) × Source
send bytes s = (ok tt, record s { bytes = s.bytes ++ bytes })

pub read_header-sent :
    (magic header rest : List ℕ) (n : ℕ) (s : Source)
    → length magic ≡ 8
    → length header ≡ n
    → (field 0 1 header == replay_version) ≡ true
    → ahead s ≡ magic ++ (header ++ rest)
    → (read_header magic n s ≡ (ok header, seek (s.pos + 8 + n) s))
      × (ahead (seek (s.pos + 8 + n) s) ≡ rest)
unfolding read_header
read_header-sent magic header rest n s hm hh version at =
    let s₁ = seek (s.pos + 8) s in
    let a₁ = ahead_at 8 magic (header ++ rest) s hm at in
    (
      rw (read_at 8 magic (header ++ rest) s hm at)
          (rw (bytes_eq_refl magic) (rw (read_at n header rest s₁ hh a₁) (rw version refl))),
      ahead_at n header rest s₁ hh a₁,
    )

read_header-send :
    (magic header : List ℕ) (n : ℕ) (s : Source)
    → length magic ≡ 8
    → length header ≡ n
    → (field 0 1 header == replay_version) ≡ true
    → s.pos ≡ length s.bytes
    → (s' : Source) × (read_header magic n (send (magic ++ header) s).1 ≡ (ok header, s'))
      × (ahead s' ≡ [])
read_header-send magic header n s hm hh version drained =
    let sent = (send (magic ++ header) s).1 in
    let at =
      ap (λ p. drop p (s.bytes ++ (magic ++ header))) drained
      ∙ drop-append s.bytes (magic ++ header)
      ∙ ap (λ xs. magic ++ xs) (sym (append-nil header)) in
    let (read, behind) = read_header-sent magic header [] n sent hm hh version at in
    (_, read, behind)

pub flag_byte-read :
    (b : Bool) → not (bit_and (field 1 1 (replay_version ∷ flag_byte b ∷ [])) 0x01 == 0) ≡ b
flag_byte-read true = refl
flag_byte-read false = refl

-- On a connection on which everything sent has been received, the reader of replay requests returns
-- the request that `write_replay_request` sends, if its number is a u64, and consumes all of it.
pub read_replay_request-write_replay_request :
    (request : ReplayRequest) (s : Source)
    → IsU64 request.from_seq
    → s.pos ≡ length s.bytes
    → (s' : Source) × ((write_replay_request send request >> read_replay_request) s
        ≡ (ok request, s'))
      × (ahead s' ≡ [])
unfolding read_replay_request write_replay_request
read_replay_request-write_replay_request request s h drained =
    let (s', read, behind) =
      read_header-send replay_request_magic (request_header request) 16 s refl refl refl drained in
    (
      s',
      rw read (λ i. (
        ok (record {
          from_seq = from_le-le_bytes 8 request.from_seq h i;
          consume = flag_byte-read request.consume i;
        }),
        s',
      )),
      behind,
    )

-- On a connection on which everything sent has been received, the reader of hellos returns the hello
-- that `write_replay_hello` sends, if its three numbers are u64s, and consumes all of it.
pub read_replay_hello-write_replay_hello :
    (hello : ReplayHello) (s : Source)
    → IsU64 hello.stream_id
    → IsU64 hello.first_seq
    → IsU64 hello.last_seq
    → s.pos ≡ length s.bytes
    → (s' : Source) × ((write_replay_hello send hello >> read_replay_hello) s ≡ (ok hello, s'))
      × (ahead s' ≡ [])
unfolding read_replay_hello write_replay_hello
read_replay_hello-write_replay_hello hello s hi hf hl drained =
    let (s', read, behind) =
      read_header-send replay_hello_magic (hello_header hello) 32 s refl refl refl drained in
    (
      s',
      rw read (λ i. (
        ok (record {
          stream_id = from_le-le_bytes 8 hello.stream_id hi i;
          first_seq = from_le-le_bytes 8 hello.first_seq hf i;
          last_seq = from_le-le_bytes 8 hello.last_seq hl i;
        }),
        s',
      )),
      behind,
    )

-- On a connection on which everything sent has been received, the reader of acknowledgements returns
-- the one that `write_replay_ack` sends, if its number is a u64, and consumes all of it.
pub read_replay_ack-write_replay_ack :
    (ack : ReplayAck) (s : Source)
    → IsU64 ack.ack_seq
    → s.pos ≡ length s.bytes
    → (s' : Source) × ((write_replay_ack send ack >> read_replay_ack) s ≡ (ok ack, s'))
      × (ahead s' ≡ [])
unfolding read_replay_ack write_replay_ack
read_replay_ack-write_replay_ack ack s h drained =
    let (s', read, behind) =
      read_header-send replay_ack_magic (ack_header ack) 16 s refl refl refl drained in
    (s', rw read (λ i. (ok (record { ack_seq = from_le-le_bytes 8 ack.ack_seq h i }), s')), behind)

-- Every message of the replay protocol comes back: on a connection on which everything sent has been
-- received, the reader of replay requests, that of hellos and that of acknowledgements return what
-- the writer of the same message sends, if its numbers are u64s, and consume all of it.
pub read_replay-write_replay :
    (request : ReplayRequest) (hello : ReplayHello) (ack : ReplayAck) (s : Source)
    → IsU64 request.from_seq
    → IsU64 hello.stream_id
    → IsU64 hello.first_seq
    → IsU64 hello.last_seq
    → IsU64 ack.ack_seq
    → s.pos ≡ length s.bytes
    → ((s' : Source) × ((write_replay_request send request >> read_replay_request) s
          ≡ (ok request, s'))
        × (ahead s' ≡ []))
      × ((s' : Source) × ((write_replay_hello send hello >> read_replay_hello) s ≡ (ok hello, s'))
          × (ahead s' ≡ []))
      × ((s' : Source) × ((write_replay_ack send ack >> read_replay_ack) s ≡ (ok ack, s'))
          × (ahead s' ≡ []))
read_replay-write_replay request hello ack s hr hi hf hl ha drained = (
  read_replay_request-write_replay_request request s hr drained,
  read_replay_hello-write_replay_hello hello s hi hf hl drained,
  read_replay_ack-write_replay_ack ack s ha drained,
)
