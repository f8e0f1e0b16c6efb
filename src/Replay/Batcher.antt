-- ===== src/Replay/Batcher.antt =====
-- `OtlpBatcher` of logjetd/src/replay.rs. The OTLP types, their comparison, decoding and encoding are the
-- protocol library's: parameters, with the fields that the batcher reads.
use logjet.Base.{
  ℕ, ◌+◌, ◌-◌, Bool, false, ◌&&◌, String, List, [], ◌∷◌, ◌++◌, Option, none, some, ltb, leb, ◌==◌,
  if◌then◌else◌, ok, length,
}
use logjet.Base.Exec.{Exec}
use logjet.Error.{ErrorKind}
use logjet.Record.{logs}
use logjet.Replay.Collectors.{Connector, post_for}

pub record ScopeLogs (S L : Type 0) : Type 0 where
  pub scope : S
  pub log_records : List L
  pub schema_url : String

pub record ResourceLogs (R S L : Type 0) : Type 0 where
  pub resource : R
  pub scope_logs : List (ScopeLogs S L)
  pub schema_url : String

pub record OtlpBatcher (R S L : Type 0) : Type 0 where
  pub batch_size : ℕ
  pub batch_timeout_ms : ℕ
  pub pending : List (ResourceLogs R S L)
  pub pending_count : ℕ
  pub first_added : Option ℕ

-- What the protocol library provides.
pub record Otlp (R S L : Type 0) : Type 0 where
  pub same_resource : R → R → Bool
  pub same_scope : S → S → Bool
  pub decode : List ℕ → Option (List (ResourceLogs R S L))
  pub encode_to_vec : List (ResourceLogs R S L) → List ℕ

unfoldable pub new : {R S L : Type 0} → ℕ → ℕ → OtlpBatcher R S L
new batch_size batch_timeout_ms = record {
  batch_size = batch_size;
  batch_timeout_ms = batch_timeout_ms;
  pending = [];
  pending_count = 0;
  first_added = none;
}

abbrev pub first_added_at : ℕ → Option ℕ → Option ℕ
first_added_at now none = some now
first_added_at now (some t) = some t

module _ {S L : Type 0} where
  -- Every branch adds the number of records of the scope that it merges.
  abbrev pub count_scopes : List (ScopeLogs S L) → ℕ
  count_scopes [] = 0
  count_scopes (sl ∷ sls) = length sl.log_records + count_scopes sls

module _ {R S L : Type 0} (otlp : Otlp R S L) where
  -- The first scope that is the same takes the records; else the scope is pushed.
  unfoldable pub merge_scope : ScopeLogs S L → List (ScopeLogs S L) → List (ScopeLogs S L)
  merge_scope incoming [] = incoming ∷ []
  merge_scope incoming (sl ∷ sls) =
      let others = merge_scope incoming sls in
      if otlp.same_scope sl.scope incoming.scope
      then record sl { log_records = sl.log_records ++ incoming.log_records } ∷ sls
      else sl ∷ others

  unfoldable pub merge_scopes : List (ScopeLogs S L) → List (ScopeLogs S L) → List (ScopeLogs S L)
  merge_scopes [] existing = existing
  merge_scopes (sl ∷ sls) existing = merge_scopes sls (merge_scope sl existing)

  unfoldable pub merge_resource :
      ResourceLogs R S L → List (ResourceLogs R S L) → List (ResourceLogs R S L)
  merge_resource incoming [] = incoming ∷ []
  merge_resource incoming (rl ∷ rls) =
      let others = merge_resource incoming rls in
      if otlp.same_resource rl.resource incoming.resource
      then record rl { scope_logs = merge_scopes incoming.scope_logs rl.scope_logs } ∷ rls
      else rl ∷ others

  unfoldable pub merge_all : List (ResourceLogs R S L) → OtlpBatcher R S L → OtlpBatcher R S L
  merge_all [] b = b
  merge_all (rl ∷ rls) b = merge_all rls (record b {
    pending = merge_resource rl b.pending;
    pending_count = b.pending_count + count_scopes rl.scope_logs;
  })

  -- At the time `now`.
  unfoldable pub merge : ℕ → List (ResourceLogs R S L) → OtlpBatcher R S L → OtlpBatcher R S L
  merge now req b = merge_all req (record b { first_added = first_added_at now b.first_added })

pub record Batching (R S L C : Type 0) : Type 0 where
  pub batcher : OtlpBatcher R S L
  pub conn : List C

module _ {R S L C : Type 0} (otlp : Otlp R S L) (connector : Connector C) where
  abbrev pub posting : List ℕ → Exec (Batching R S L C) ErrorKind (Unit {0})
  posting payload s =
      let r = post_for connector logs payload s.conn in (r.0, record s { conn = r.1 })

  -- The batch is emptied before it is posted.
  unfoldable pub flush : Exec (Batching R S L C) ErrorKind (Unit {0})
  flush s =
      if s.batcher.pending_count == 0
      then (ok tt, s)
      else posting (otlp.encode_to_vec s.batcher.pending) (record s {
        batcher = record s.batcher { pending = []; pending_count = 0; first_added = none };
      })

  abbrev pub add_decoded :
      ℕ → List ℕ → Option (List (ResourceLogs R S L)) → Exec (Batching R S L C) ErrorKind (Unit {0})
  add_decoded now payload none s = posting payload s
  add_decoded now payload (some req) s =
      let merged : Batching R S L C = record s { batcher = merge otlp now req s.batcher } in
      if leb merged.batcher.batch_size merged.batcher.pending_count
      then flush merged
      else (ok tt, merged)

  unfoldable pub add : ℕ → List ℕ → Exec (Batching R S L C) ErrorKind (Unit {0})
  add now payload s =
      if leb s.batcher.batch_size 1
      then posting payload s
      else add_decoded now payload (otlp.decode payload) s

  abbrev pub expired : ℕ → OtlpBatcher R S L → Option ℕ → Bool
  expired now b none = false
  expired now b (some t) = leb b.batch_timeout_ms (now - t)

  unfoldable pub flush_if_expired : ℕ → Exec (Batching R S L C) ErrorKind (Unit {0})
  flush_if_expired now s =
      if ltb 0 s.batcher.pending_count
        && (ltb 0 s.batcher.batch_timeout_ms && expired now s.batcher s.batcher.first_added)
      then flush s
      else (ok tt, s)
