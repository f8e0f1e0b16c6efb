-- ===== src/Replay/Batches.antt =====
-- What `OtlpBatcher` of logjetd/src/replay.rs keeps of the records that it merges.
use logjet.Base.{
  one_if, ap₂, ℕ, ◌+◌, ◌<◌, ◌≡◌, refl, ◌∙◌, Bool, true, List, [], ◌∷◌, ◌++◌, Option, none, some,
  leb, ◌==◌, Bool-cases, leb→lt, length, inl, inr, arith, max,
}
use logjet.Replay.Collectors.{Connector}
use logjet.Replay.Batcher.{
  ScopeLogs, ResourceLogs, OtlpBatcher, Otlp, merge_scope, merge_scopes, merge_resource,
  count_scopes, merge_all, merge, Batching, flush, add, add_decoded,
}

-- How many of the records pass a test of the resource, the scope and the record.
module _ {R S L : Type 0} (test : R → S → L → Bool) where
  abbrev pub tally_logs : R → S → List L → ℕ
  tally_logs r s [] = 0
  tally_logs r s (l ∷ ls) = one_if (test r s l) + tally_logs r s ls

  abbrev pub tally_scopes : R → List (ScopeLogs S L) → ℕ
  tally_scopes r [] = 0
  tally_scopes r (sl ∷ sls) = tally_logs r sl.scope sl.log_records + tally_scopes r sls

  abbrev pub tally : List (ResourceLogs R S L) → ℕ
  tally [] = 0
  tally (rl ∷ rls) = tally_scopes rl.resource rl.scope_logs + tally rls

  tally_logs-append :
      (r : R) (s : S) (xs ys : List L)
      → tally_logs r s (xs ++ ys) ≡ tally_logs r s xs + tally_logs r s ys
  tally_logs-append r s [] ys = omega arith
  tally_logs-append r s (x ∷ xs) ys = omega (arith, tally_logs-append r s xs ys)

module _ {R S L : Type 0} (otlp : Otlp R S L) (test : R → S → L → Bool)
    (resources : (r r' : R)
      → otlp.same_resource r r' ≡ true
      → (s : S) (l : L) → test r s l ≡ test r' s l)
    (scopes : (s s' : S)
      → otlp.same_scope s s' ≡ true
      → (r : R) (l : L) → test r s l ≡ test r s' l) where
  tally_logs-scope :
      (r : R) (s s' : S) (ls : List L)
      → otlp.same_scope s s' ≡ true
      → tally_logs test r s ls ≡ tally_logs test r s' ls
  tally_logs-scope r s s' [] same = refl
  tally_logs-scope r s s' (l ∷ ls) same =
      ap₂ (λ b n. one_if b + n) (scopes s s' same r l) (tally_logs-scope r s s' ls same)

  tally_logs-resource :
      (r r' : R) (s : S) (ls : List L)
      → otlp.same_resource r r' ≡ true
      → tally_logs test r s ls ≡ tally_logs test r' s ls
  tally_logs-resource r r' s [] same = refl
  tally_logs-resource r r' s (l ∷ ls) same =
      ap₂ (λ b n. one_if b + n) (resources r r' same s l) (tally_logs-resource r r' s ls same)

  tally_scopes-resource :
      (r r' : R) (sls : List (ScopeLogs S L))
      → otlp.same_resource r r' ≡ true
      → tally_scopes test r sls ≡ tally_scopes test r' sls
  tally_scopes-resource r r' [] same = refl
  tally_scopes-resource r r' (sl ∷ sls) same =
      ap₂ (λ m n. m + n) (tally_logs-resource r r' sl.scope sl.log_records same)
        (tally_scopes-resource r r' sls same)

  tally_scopes-merge_scope :
      (r : R) (sl : ScopeLogs S L) (sls : List (ScopeLogs S L))
      → tally_scopes test r (merge_scope otlp sl sls)
        ≡ tally_scopes test r sls + tally_logs test r sl.scope sl.log_records
  unfolding merge_scope
  tally_scopes-merge_scope r sl [] = omega arith
  tally_scopes-merge_scope r sl (x ∷ xs) = elim (Bool-cases (otlp.same_scope x.scope sl.scope)) [
    | inl same ↦ rw same (
        omega (
          arith,
          tally_logs-append test r x.scope x.log_records sl.log_records,
          tally_logs-scope r x.scope sl.scope sl.log_records same,
        ))
    | inr other ↦ rw other (omega (arith, tally_scopes-merge_scope r sl xs))
  ]

  tally_scopes-merge_scopes :
      (r : R) (sls existing : List (ScopeLogs S L))
      → tally_scopes test r (merge_scopes otlp sls existing)
        ≡ tally_scopes test r existing + tally_scopes test r sls
  unfolding merge_scopes
  tally_scopes-merge_scopes r [] existing = omega arith
  tally_scopes-merge_scopes r (sl ∷ sls) existing = omega (
    arith,
    tally_scopes-merge_scopes r sls (merge_scope otlp sl existing),
    tally_scopes-merge_scope r sl existing,
  )

  tally-merge_resource :
      (rl : ResourceLogs R S L) (rls : List (ResourceLogs R S L))
      → tally test (merge_resource otlp rl rls)
        ≡ tally test rls + tally_scopes test rl.resource rl.scope_logs
  unfolding merge_resource
  tally-merge_resource rl [] = omega arith
  tally-merge_resource rl (x ∷ xs) = elim (Bool-cases (otlp.same_resource x.resource rl.resource)) [
    | inl same ↦ rw same (
        omega (
          arith,
          tally_scopes-merge_scopes x.resource rl.scope_logs x.scope_logs,
          tally_scopes-resource x.resource rl.resource rl.scope_logs same,
        ))
    | inr other ↦ rw other (omega (arith, tally-merge_resource rl xs))
  ]

  tally-merge_all :
      (req : List (ResourceLogs R S L)) (b : OtlpBatcher R S L)
      → tally test (merge_all otlp req b).pending ≡ tally test b.pending + tally test req
  unfolding merge_all
  tally-merge_all [] b = omega arith
  tally-merge_all (rl ∷ rls) b = omega (
    arith,
    tally-merge_all rls (record b {
      pending = merge_resource otlp rl b.pending;
      pending_count = b.pending_count + count_scopes rl.scope_logs;
    }),
    tally-merge_resource rl b.pending,
  )

  -- Merging keeps the log records, each with its resource and its scope: as many records of the batch
  -- pass a test of the resource, the scope and the log record itself after `merge` as did of the batch
  -- and of the request together, for every test that tells apart neither two resources that compare as
  -- the same nor two such scopes. It says nothing of the schema URLs.
  pub tally-merge :
      (now : ℕ) (req : List (ResourceLogs R S L)) (b : OtlpBatcher R S L)
      → tally test (merge otlp now req b).pending ≡ tally test b.pending + tally test req
  unfolding merge
  tally-merge now req b = tally-merge_all req (record b { first_added = _ })

abbrev pub every : {R S L : Type 0} → R → S → L → Bool
every r s l = true

module _ {R S L : Type 0} where
  tally_logs-every : (r : R) (s : S) (ls : List L) → tally_logs every r s ls ≡ length ls
  tally_logs-every r s [] = refl
  tally_logs-every r s (l ∷ ls) = omega (arith, tally_logs-every r s ls)

  tally_scopes-every :
      (r : R) (sls : List (ScopeLogs S L)) → tally_scopes every r sls ≡ count_scopes sls
  tally_scopes-every r [] = refl
  tally_scopes-every r (sl ∷ sls) =
      omega (arith, tally_logs-every r sl.scope sl.log_records, tally_scopes-every r sls)

  -- The count is that of the records, and a batch that is full has been flushed.
  abbrev pub IsBatch : OtlpBatcher R S L → Type 0
  IsBatch b = (b.pending_count ≡ tally every b.pending) × (b.pending_count < max b.batch_size 1)

module _ {R S L C : Type 0} (otlp : Otlp R S L) (connector : Connector C) where
  merge_all-counts :
      (req : List (ResourceLogs R S L)) (b : OtlpBatcher R S L)
      → b.pending_count ≡ tally every b.pending
      → ((merge_all otlp req b).pending_count ≡ tally every (merge_all otlp req b).pending)
        × ((merge_all otlp req b).batch_size ≡ b.batch_size)
  unfolding merge_all
  merge_all-counts [] b h = (h, refl)
  merge_all-counts (rl ∷ rls) b h =
      merge_all-counts rls
        (record b {
          pending = merge_resource otlp rl b.pending;
          pending_count = b.pending_count + count_scopes rl.scope_logs;
        })
        (omega (
          arith,
          h,
          tally-merge_resource otlp every (λ r r' e s l. refl) (λ s s' e r l. refl) rl b.pending,
          tally_scopes-every rl.resource rl.scope_logs,
        ))

  merge-counts :
      (now : ℕ) (req : List (ResourceLogs R S L)) (b : OtlpBatcher R S L)
      → b.pending_count ≡ tally every b.pending
      → ((merge otlp now req b).pending_count ≡ tally every (merge otlp now req b).pending)
        × ((merge otlp now req b).batch_size ≡ b.batch_size)
  unfolding merge
  merge-counts now req b h = merge_all-counts req (record b { first_added = _ }) h

  flush-IsBatch :
      (s : Batching R S L C)
      → s.batcher.pending_count ≡ tally every s.batcher.pending
      → IsBatch (flush otlp connector s).1.batcher
        × ((flush otlp connector s).1.batcher.batch_size ≡ s.batcher.batch_size)
  unfolding flush
  flush-IsBatch s h = elim (Bool-cases (s.batcher.pending_count == 0)) [
    | inl e ↦ rw e ((h, ground arith), refl)
    | inr e ↦ rw e ((refl, omega arith), refl)
  ]

  -- The batcher never holds a full batch, and its count is right: whatever is added at whatever time, if
  -- before `add` the count was that of the pending records, below the batch size (which counts as 1 if it
  -- is 0), then so it is after `add`, whether the payload could be decoded or not and whether posting
  -- succeeded or not, and the batch size is the same.
  pub add-IsBatch :
      (now : ℕ) (payload : List ℕ) (s : Batching R S L C)
      → IsBatch s.batcher
      → IsBatch (add otlp connector now payload s).1.batcher
        × ((add otlp connector now payload s).1.batcher.batch_size ≡ s.batcher.batch_size)
  unfolding add
  add-IsBatch now payload s h = elim (Bool-cases (leb s.batcher.batch_size 1)) [
    | inl e ↦ rw e (h, refl)
    | inr e ↦ rw e (by_decoded (otlp.decode payload))
  ]
    where
      by_decoded :
          (req : Option (List (ResourceLogs R S L)))
          → IsBatch (add_decoded otlp connector now payload req s).1.batcher
            × ((add_decoded otlp connector now payload req s).1.batcher.batch_size
                ≡ s.batcher.batch_size)
      by_decoded none = (h, refl)
      by_decoded (some req) =
          let merged : Batching R S L C = record s { batcher = merge otlp now req s.batcher } in
          let counts = merge-counts now req s.batcher h.0 in
          elim (Bool-cases (leb merged.batcher.batch_size merged.batcher.pending_count)) [
            | inl e ↦ rw e (let f = flush-IsBatch merged counts.0 in (f.0, f.1 ∙ counts.1))
            | inr e ↦ rw e ((counts.0, omega (arith, leb→lt _ _ e)), counts.1)
          ]
