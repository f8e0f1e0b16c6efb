-- ===== src/Replay/Collectors.antt =====
-- `CollectorConnection` and `MultiCollectorConnection` of logjetd/src/replay.rs. What one connection does
-- over HTTP or gRPC is a parameter: a post that may fail and a reconnect that may fail.
use logjet.Base.{List, [], ◌∷◌, Result, ok, err, ℕ}
use logjet.Base.Exec.{Exec, ◌>>◌}
use logjet.Error.{ErrorKind}
use logjet.Record.{RecordType}

pub record Connector (C : Type 0) : Type 0 where
  pub post_for_inner : RecordType → List ℕ → Exec C ErrorKind (Unit {0})
  pub reconnect : Exec C ErrorKind (Unit {0})

module _ {C : Type 0} (connector : Connector C) where
  abbrev pub retried :
      RecordType → List ℕ → Result ErrorKind (Unit {0}) × C → Result ErrorKind (Unit {0}) × C
  retried record_type payload (ok t, c) = (ok t, c)
  retried record_type payload (err first, c) =
      (connector.reconnect >> connector.post_for_inner record_type payload) c

  -- `CollectorConnection::post_for`
  unfoldable pub post_for_one : RecordType → List ℕ → Exec C ErrorKind (Unit {0})
  post_for_one record_type payload c =
      retried record_type payload (connector.post_for_inner record_type payload c)

  abbrev pub onward :
      Result ErrorKind (Unit {0}) × C
      → List C
      → Result ErrorKind (Unit {0}) × List C
      → Result ErrorKind (Unit {0}) × List C
  onward (ok t, c) cs later = (later.0, c ∷ later.1)
  onward (err e, c) cs later = (err e, c ∷ cs)

  -- `MultiCollectorConnection::post_for`
  unfoldable pub post_for : RecordType → List ℕ → Exec (List C) ErrorKind (Unit {0})
  post_for record_type payload [] = (ok tt, [])
  post_for record_type payload (c ∷ cs) =
      onward (post_for_one record_type payload c) cs (post_for record_type payload cs)
