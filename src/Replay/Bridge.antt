-- ===== src/Replay/Bridge.antt =====
-- `bridge_transport` of logjetd/src/replay.rs without backpressure: it reads records, posts each to the
-- collectors, keeps the resume state and, when it drains, acknowledges. The texts on the terminal are
-- left out.
use logjet.Base.{ℕ, zero, suc, Bool, List, Option, none, some, if◌then◌else◌, Result}
use logjet.Base.Exec.{Exec, pure, lift, gets, modify, ◌>>=◌, ◌>>◌}
use logjet.Error.{ErrorKind}
use logjet.Codec.{Libraries}
use logjet.Source.{Source}
use logjet.Protocol.Frame.{WireRecord}
use logjet.Protocol.Wire.{read_record}
use logjet.Protocol.Replay.{write_replay_ack, write_replay_request, read_replay_hello}
use logjet.Replay.State.{BridgeState, reconcile_bridge_state, bridge_state_text}
use logjet.Replay.Collectors.{Connector, post_for}

pub record Bridge (O F C : Type 0) : Type 0 where
  pub incoming : Source
  pub outgoing : O
  pub state : BridgeState
  pub file : F
  pub collectors : List C

module _ {O F C : Type 0} where
  abbrev pub outward : {A : Type 0} → Exec O ErrorKind A → Exec (Bridge O F C) ErrorKind A
  outward m b = let r = m b.outgoing in (r.0, record b { outgoing = r.1 })

  abbrev pub inward : {A : Type 0} → Exec Source ErrorKind A → Exec (Bridge O F C) ErrorKind A
  inward m b = let r = m b.incoming in (r.0, record b { incoming = r.1 })

  abbrev pub posting : {A : Type 0} → Exec (List C) ErrorKind A → Exec (Bridge O F C) ErrorKind A
  posting m b = let r = m b.collectors in (r.0, record b { collectors = r.1 })

-- What the bridge is given: its writing side; whether it has a state file and how that is written, its
-- directory made first; the collectors; and `consume`, which is whether it drains.
pub record Setup (O F C : Type 0) : Type 0 where
  pub write_all : List ℕ → Exec O ErrorKind (Unit {0})
  pub flush : Exec O ErrorKind (Unit {0})
  pub state_file : Bool
  pub write_file : List ℕ → Exec F ErrorKind (Unit {0})
  pub connector : Connector C
  pub open_connection : Result ErrorKind (List C)
  pub consume : Bool

module _ {O F C : Type 0} (setup : Setup O F C) where
  abbrev written : BridgeState → Exec F ErrorKind (Unit {0})
  written state = if setup.state_file then setup.write_file (bridge_state_text state) else pure tt

  unfoldable pub write_bridge_state : Exec (Bridge O F C) ErrorKind (Unit {0})
  write_bridge_state b = let r = written b.state b.file in (r.0, record b { file = r.1 })

  unfoldable pub acknowledge : ℕ → Exec (Bridge O F C) ErrorKind (Unit {0})
  acknowledge seq = do
    outward (write_replay_ack setup.write_all (record { ack_seq = seq }))
    outward setup.flush

  unfoldable pub commit_record : ℕ → Exec (Bridge O F C) ErrorKind (Unit {0})
  commit_record seq = do
    modify (λ b. record b { state = record b.state { last_seq = seq } })
    write_bridge_state
    if setup.consume then acknowledge seq else pure tt

module _ (lib : Libraries) {O F C : Type 0} (setup : Setup O F C) where
  unfoldable pub bridge_record : WireRecord → Exec (Bridge O F C) ErrorKind (Unit {0})
  bridge_record r = do
    posting (post_for setup.connector r.record_type r.payload)
    commit_record setup r.seq

  abbrev pub bridge_read :
      Exec (Bridge O F C) ErrorKind (Unit {0})
      → Option WireRecord
      → Exec (Bridge O F C) ErrorKind (Unit {0})
  bridge_read again none = pure tt
  bridge_read again (some r) = bridge_record r >> again

  -- The loop of records, for a number of rounds.
  unfoldable pub bridge_records : ℕ → Exec (Bridge O F C) ErrorKind (Unit {0})
  bridge_records zero = pure tt
  bridge_records (suc rounds) = inward (read_record lib) >>= bridge_read (bridge_records rounds)

  unfoldable pub bridge_transport : ℕ → Exec (Bridge O F C) ErrorKind (Unit {0})
  bridge_transport rounds = do
    hello ← inward read_replay_hello
    modify (λ b. record b { state = reconcile_bridge_state hello b.state })
    write_bridge_state setup
    from_seq ← gets (λ b. b.state.last_seq)
    outward (
        write_replay_request setup.write_all
          (record { from_seq = from_seq; consume = setup.consume }))
    outward setup.flush
    collectors ← lift setup.open_connection
    modify (λ b. record b { collectors = collectors })
    bridge_records rounds
