-- ===== src/Protocol/Replay.antt =====
-- The replay messages of logjetd/src/protocol.rs: request, hello and acknowledgement.
use logjet.Base.{
  ℕ, Bool, true, false, not, bit_and, List, [], ◌∷◌, ◌++◌, ◌==◌, bytes_eq, fail_if, le_bytes,
}
use logjet.Base.Exec.{Exec, pure, lift, ◌>>=◌, ◌>>◌}
use logjet.Error.{ErrorKind, invalid_data}
use logjet.Source.{Source, read_exact}
use logjet.Protocol.Frame.{field}

-- "LJRPL001", "LJRPH001" and "LJRPA001"
abbrev pub replay_request_magic : List ℕ
replay_request_magic = 0x4c ∷ 0x4a ∷ 0x52 ∷ 0x50 ∷ 0x4c ∷ 0x30 ∷ 0x30 ∷ 0x31 ∷ []

abbrev pub replay_hello_magic : List ℕ
replay_hello_magic = 0x4c ∷ 0x4a ∷ 0x52 ∷ 0x50 ∷ 0x48 ∷ 0x30 ∷ 0x30 ∷ 0x31 ∷ []

abbrev pub replay_ack_magic : List ℕ
replay_ack_magic = 0x4c ∷ 0x4a ∷ 0x52 ∷ 0x50 ∷ 0x41 ∷ 0x30 ∷ 0x30 ∷ 0x31 ∷ []

-- `REPLAY_REQUEST_VERSION`, `REPLAY_HELLO_VERSION` and `REPLAY_ACK_VERSION`
abbrev pub replay_version : ℕ
replay_version = 1

pub record ReplayRequest : Type 0 where
  pub from_seq : ℕ
  pub consume : Bool

pub record ReplayHello : Type 0 where
  pub stream_id : ℕ
  pub first_seq : ℕ
  pub last_seq : ℕ

pub record ReplayAck : Type 0 where
  pub ack_seq : ℕ

-- The three readers begin alike: the magic, then a header whose first byte is the version.
unfoldable pub read_header : List ℕ → ℕ → Exec Source ErrorKind (List ℕ)
read_header expected header_len = do
  magic ← read_exact 8
  lift (fail_if (not (bytes_eq magic expected)) invalid_data)
  header ← read_exact header_len
  lift (fail_if (not (field 0 1 header == replay_version)) invalid_data)
  pure header

unfoldable pub read_replay_request : Exec Source ErrorKind ReplayRequest
read_replay_request = do
  header ← read_header replay_request_magic 16
  pure
      (record { consume = not (bit_and (field 1 1 header) 0x01 == 0); from_seq = field 8 8 header })

unfoldable pub read_replay_hello : Exec Source ErrorKind ReplayHello
read_replay_hello = do
  header ← read_header replay_hello_magic 32
  pure (record {
    stream_id = field 8 8 header;
    first_seq = field 16 8 header;
    last_seq = field 24 8 header;
  })

unfoldable pub read_replay_ack : Exec Source ErrorKind ReplayAck
read_replay_ack = do
  header ← read_header replay_ack_magic 16
  pure (record { ack_seq = field 8 8 header })

-- `u8::from(flag)`
abbrev pub flag_byte : Bool → ℕ
flag_byte true = 1
flag_byte false = 0

-- The bytes behind the magic; those that are not set stay 0.
abbrev pub request_header : ReplayRequest → List ℕ
request_header request =
    replay_version ∷ flag_byte request.consume ∷ 0 ∷ 0 ∷ 0 ∷ 0 ∷ 0 ∷ 0 ∷ le_bytes 8 request.from_seq

abbrev pub hello_header : ReplayHello → List ℕ
hello_header hello =
    replay_version
    ∷ 0
    ∷ 0
    ∷ 0
    ∷ 0
    ∷ 0
    ∷ 0
    ∷ 0
    ∷ (le_bytes 8 hello.stream_id ++ (le_bytes 8 hello.first_seq ++ le_bytes 8 hello.last_seq))

abbrev pub ack_header : ReplayAck → List ℕ
ack_header ack = replay_version ∷ 0 ∷ 0 ∷ 0 ∷ 0 ∷ 0 ∷ 0 ∷ 0 ∷ le_bytes 8 ack.ack_seq

module _ {W : Type 0} (write_all : List ℕ → Exec W ErrorKind (Unit {0})) where
  unfoldable pub write_replay_request : ReplayRequest → Exec W ErrorKind (Unit {0})
  write_replay_request request = write_all (replay_request_magic ++ request_header request)

  unfoldable pub write_replay_hello : ReplayHello → Exec W ErrorKind (Unit {0})
  write_replay_hello hello = write_all (replay_hello_magic ++ hello_header hello)

  unfoldable pub write_replay_ack : ReplayAck → Exec W ErrorKind (Unit {0})
  write_replay_ack ack = write_all (replay_ack_magic ++ ack_header ack)
