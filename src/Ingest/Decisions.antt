-- ===== src/Ingest/Decisions.antt =====
-- One decision of the ingest policy of logjetd/src/daemon.rs: the window and the counts behind it.
use logjet.Base.{
  ltb→lt, lt→leb, ltb, leb, max, Bool, true, false, if◌then◌else◌, ◌==◌, saturating_sub, ℕ, suc,
  ◌+◌, ◌≤◌, ◌<◌, ◌^◌, ◌≡◌, refl, ap, sym, subst, ◌∙◌, List, [], ◌∷◌, arith,
}
use logjet.Ingest.Policy.{
  BatchPriority, rank, batch_priority_floor, IngestDecision, accept, accept_priority_bypass,
  reject_rate_limited, IngestOverloadConfig, IngestOverloadStats, IngestPolicyState, second, millis,
  maybe_report_overload, roll_window, choose, note_decision, reported, decide,
}

-- One batch: the time, the time of the report, and the priority.
pub record Arrival : Type 0 where
  pub now : ℕ
  pub report_now : ℕ
  pub priority : BatchPriority

abbrev pub accepts : List IngestDecision → ℕ
accepts [] = 0
accepts (accept ∷ ds) = suc (accepts ds)
accepts (accept_priority_bypass ∷ ds) = accepts ds
accepts (reject_rate_limited ∷ ds) = accepts ds

abbrev pub bypasses : List IngestDecision → ℕ
bypasses [] = 0
bypasses (accept ∷ ds) = bypasses ds
bypasses (accept_priority_bypass ∷ ds) = suc (bypasses ds)
bypasses (reject_rate_limited ∷ ds) = bypasses ds

abbrev pub rejects : List IngestDecision → ℕ
rejects [] = 0
rejects (accept ∷ ds) = rejects ds
rejects (accept_priority_bypass ∷ ds) = rejects ds
rejects (reject_rate_limited ∷ ds) = suc (rejects ds)

-- The batches that were decided on.
abbrev pub decided_on : IngestOverloadStats → ℕ
decided_on s = s.accepted + s.priority_bypass + s.rate_limited

-- A report changes neither the window nor the counts.
abbrev pub IsSameBut : IngestPolicyState → IngestPolicyState → Type 0
IsSameBut s s' =
    (s'.window_start ≡ s.window_start)
    × (s'.accepted_in_window ≡ s.accepted_in_window)
    × (s'.stats ≡ s.stats)

maybe_report_overload-IsSameBut :
    (config : IngestOverloadConfig) (now : ℕ) (s : IngestPolicyState)
    → IsSameBut s (maybe_report_overload config now s)
unfolding maybe_report_overload
maybe_report_overload-IsSameBut config now s =
    by_tests (config.report_every_ms == 0) (ltb now s.next_report_at)
  where
    by_tests :
        (off early : Bool)
        → IsSameBut s (
            if off
            then s
            else if early
            then s
            else record s { next_report_at = now + millis (max config.report_every_ms 1) })
    by_tests true early = (refl, refl, refl)
    by_tests false true = (refl, refl, refl)
    by_tests false false = (refl, refl, refl)

module _ (config : IngestOverloadConfig) (a : Arrival) (state : IngestPolicyState) where
  abbrev pub after : IngestPolicyState
  after = (decide config a.now a.report_now a.priority state).1

  abbrev pub decision : IngestDecision
  decision = (decide config a.now a.report_now a.priority state).0

  decide-IsSameBut : IsSameBut (note_decision decision (roll_window a.now state)) after
  unfolding decide
  decide-IsSameBut = by_decision (choose config a.priority (roll_window a.now state))
    where
      by_decision :
          (d : IngestDecision)
          → IsSameBut (note_decision d (roll_window a.now state)) (
              if reported d
              then maybe_report_overload config a.report_now
                  (note_decision d (roll_window a.now state))
              else note_decision d (roll_window a.now state))
      by_decision accept = (refl, refl, refl)
      by_decision accept_priority_bypass = maybe_report_overload-IsSameBut config a.report_now _
      by_decision reject_rate_limited = maybe_report_overload-IsSameBut config a.report_now _

  roll_window-early : a.now < state.window_start + second → roll_window a.now state ≡ state
  unfolding roll_window
  roll_window-early early =
      let lasts : leb second (saturating_sub a.now state.window_start) ≡ false =
        lt→leb second (saturating_sub a.now state.window_start) (omega (arith, early)) in
      rw lasts

  roll_window-stats : (roll_window a.now state).stats ≡ state.stats
  unfolding roll_window
  roll_window-stats = by_test (leb second (saturating_sub a.now state.window_start))
    where
      by_test :
          (over : Bool)
          → (if over
              then record state { window_start = a.now; accepted_in_window = 0 }
              else state).stats
            ≡ state.stats
      by_test true = refl
      by_test false = refl

-- A limit in force is only passed by a batch that is accepted below it.
choose-limit :
    (config : IngestOverloadConfig) (priority : BatchPriority) (s : IngestPolicyState)
    → 0 < config.max_batches_per_second
    → s.accepted_in_window ≤ config.max_batches_per_second
    → s.accepted_in_window + accepts (choose config priority s ∷ []) ≤ config.max_batches_per_second
unfolding choose
choose-limit config priority s some_limit within =
    let limited : (config.max_batches_per_second == 0) ≡ false = ground arith in
    rw limited (
      by_tests (ltb s.accepted_in_window config.max_batches_per_second) refl
        (leb (rank (batch_priority_floor config.priority_severity_floor)) (rank priority)))
  where
    by_tests :
        (room : Bool)
        → ltb s.accepted_in_window config.max_batches_per_second ≡ room
        → (high : Bool)
        → s.accepted_in_window
            + accepts (
                (if room
                  then accept
                  else if high
                  then accept_priority_bypass
                  else reject_rate_limited)
                ∷ [])
          ≤ config.max_batches_per_second
    by_tests true e high =
        omega (arith, ltb→lt s.accepted_in_window config.max_batches_per_second e)
    by_tests false e true = omega (arith, within)
    by_tests false e false = omega (arith, within)

note_decision-window :
    (d : IngestDecision) (s : IngestPolicyState)
    → s.accepted_in_window + accepts (d ∷ []) < 2 ^ 64
    → ((note_decision d s).window_start ≡ s.window_start)
      × ((note_decision d s).accepted_in_window ≡ s.accepted_in_window + accepts (d ∷ []))
unfolding note_decision
note_decision-window accept s small = (refl, omega (arith, small))
note_decision-window accept_priority_bypass s small = (refl, omega arith)
note_decision-window reject_rate_limited s small = (refl, omega arith)

-- What the decisions `ds` make of the tally: each one is counted under its own kind.
abbrev pub IsCountedOn : List IngestDecision → IngestOverloadStats → IngestOverloadStats → Type 0
IsCountedOn ds t t' =
    (t'.accepted ≡ t.accepted + accepts ds)
    × (t'.priority_bypass ≡ t.priority_bypass + bypasses ds)
    × (t'.rate_limited ≡ t.rate_limited + rejects ds)
    × (t'.oversize_rejected ≡ t.oversize_rejected)
    × (t'.client_cap_rejected ≡ t.client_cap_rejected)

note_decision-IsCountedOn :
    (d : IngestDecision) (s : IngestPolicyState)
    → decided_on s.stats + 1 < 2 ^ 64
    → IsCountedOn (d ∷ []) s.stats (note_decision d s).stats
unfolding note_decision
note_decision-IsCountedOn accept s small =
    (omega (arith, small), omega arith, omega arith, refl, refl)
note_decision-IsCountedOn accept_priority_bypass s small =
    (omega arith, omega (arith, small), omega arith, refl, refl)
note_decision-IsCountedOn reject_rate_limited s small =
    (omega arith, omega arith, omega (arith, small), refl, refl)

module _ (config : IngestOverloadConfig) (a : Arrival) (state : IngestPolicyState) where
  pub decide-window :
      a.now < state.window_start + second
      → 0 < config.max_batches_per_second
      → config.max_batches_per_second < 2 ^ 64
      → state.accepted_in_window ≤ config.max_batches_per_second
      → ((after config a state).window_start ≡ state.window_start)
        × ((after config a state).accepted_in_window ≤ config.max_batches_per_second)
        × ((after config a state).accepted_in_window
            ≡ state.accepted_in_window + accepts (decision config a state ∷ []))
  decide-window early some_limit small within =
      let same = decide-IsSameBut config a state in
      let fits = chosen_fits in
      let noted =
        note_decision-window (decision config a state) state (omega (arith, fits, small)) in
      let rolled =
        ap (note_decision (decision config a state)) (roll_window-early config a state early) in
      (
        same.0 ∙ ap (λ s. s.window_start) rolled ∙ noted.0,
        omega (arith, same.1, ap (λ s. s.accepted_in_window) rolled, noted.1, fits),
        same.1 ∙ ap (λ s. s.accepted_in_window) rolled ∙ noted.1,
      )
    where
      chosen_fits :
          state.accepted_in_window + accepts (decision config a state ∷ [])
          ≤ config.max_batches_per_second
      chosen_fits =
          unfold decide in
          subst
            (λ s.
              state.accepted_in_window + accepts (choose config a.priority s ∷ [])
              ≤ config.max_batches_per_second)
            (sym (roll_window-early config a state early))
            (choose-limit config a.priority state some_limit within)

  pub decide-accounts :
      decided_on state.stats + 1 < 2 ^ 64
      → IsCountedOn (decision config a state ∷ []) state.stats (after config a state).stats
  decide-accounts small =
      let rolled = roll_window a.now state in
      subst (λ t. IsCountedOn (decision config a state ∷ []) state.stats t)
        (sym (decide-IsSameBut config a state).2)
        (subst
          (λ t.
            IsCountedOn (decision config a state ∷ []) t
              (note_decision (decision config a state) rolled).stats)
          (roll_window-stats config a state)
          (note_decision-IsCountedOn (decision config a state) rolled
            (omega (arith, small, ap decided_on (roll_window-stats config a state)))))
