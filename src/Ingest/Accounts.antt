-- ===== src/Ingest/Accounts.antt =====
-- What the ingest policy of logjetd/src/daemon.rs promises over many batches.
use logjet.Base.{
  suc, ap, ◌+◌, ◌≤◌, ◌<◌, ◌^◌, ◌≡◌, refl, sym, subst, ◌∙◌, List, [], ◌∷◌, All, length, arith,
}
use logjet.Ingest.Policy.{
  IngestDecision, accept, accept_priority_bypass, reject_rate_limited, IngestOverloadConfig,
  IngestOverloadStats, IngestPolicyState, second, decide,
}
use logjet.Ingest.Decisions.{
  Arrival, accepts, decided_on, after, decision, decide-window, decide-accounts, IsCountedOn,
}

unfoldable pub run :
    IngestOverloadConfig
    → List Arrival
    → IngestPolicyState
    → List IngestDecision × IngestPolicyState
run config [] state = ([], state)
run config (a ∷ rest) state =
    let decided = decide config a.now a.report_now a.priority state in
    let later = run config rest decided.1 in (decided.0 ∷ later.0, later.1)

accepts-cons :
    (d : IngestDecision) (ds : List IngestDecision)
    → accepts (d ∷ ds) ≡ accepts (d ∷ []) + accepts ds
accepts-cons accept ds = omega arith
accepts-cons accept_priority_bypass ds = omega arith
accepts-cons reject_rate_limited ds = omega arith

-- Within the second that a window lasts, the policy accepts at most as many batches by the rate as
-- the limit leaves: with a limit that is not 0 and below 2^64, whatever their priorities, batches
-- that all arrive before the window's end have at most the limit less what the window had accepted
-- before them decided as `accept`, and the window is still the same one after them.
pub run-window :
    (config : IngestOverloadConfig) (arrivals : List Arrival) (state : IngestPolicyState)
    → All (λ a. a.now < state.window_start + second) arrivals
    → 0 < config.max_batches_per_second
    → config.max_batches_per_second < 2 ^ 64
    → state.accepted_in_window ≤ config.max_batches_per_second
    → (state.accepted_in_window + accepts (run config arrivals state).0
        ≤ config.max_batches_per_second)
      × ((run config arrivals state).1.window_start ≡ state.window_start)
unfolding run
run-window config [] state early some_limit small within = (omega arith, refl)
run-window config (a ∷ rest) state early some_limit small within =
    let step = decide-window config a state early.0 some_limit small within in
    let later =
      run-window config rest (after config a state)
        (subst (λ w. All (λ b. b.now < w + second) rest) (sym step.0) early.1) some_limit small
        step.1 in
    (
      omega (
        arith,
        step.2,
        later.0,
        accepts-cons (decision config a state) (run config rest (after config a state)).0,
      ),
      later.1 ∙ step.0,
    )

-- The tallies that follow one decision and then others.
IsCountedOn-cons :
    (d : IngestDecision) (ds : List IngestDecision) (s t u : IngestOverloadStats)
    → IsCountedOn (d ∷ []) s t
    → IsCountedOn ds t u
    → IsCountedOn (d ∷ ds) s u
IsCountedOn-cons accept ds s t u h k = (omega arith, omega arith, omega arith, k.3 ∙ h.3, k.4 ∙ h.4)
IsCountedOn-cons accept_priority_bypass ds s t u h k =
    (omega arith, omega arith, omega arith, k.3 ∙ h.3, k.4 ∙ h.4)
IsCountedOn-cons reject_rate_limited ds s t u h k =
    (omega arith, omega arith, omega arith, k.3 ∙ h.3, k.4 ∙ h.4)

decided_on-IsCountedOn :
    (d : IngestDecision) (s t : IngestOverloadStats)
    → IsCountedOn (d ∷ []) s t
    → decided_on t ≡ decided_on s + 1
decided_on-IsCountedOn accept s t h = omega arith
decided_on-IsCountedOn accept_priority_bypass s t h = omega arith
decided_on-IsCountedOn reject_rate_limited s t h = omega arith

-- Every batch is counted exactly once, and under its own decision: while the tally of decisions stays
-- below 2^64, a run over any batches at any times raises the count of accepted batches by the number
-- decided as `accept`, that of bypasses by the number decided as `accept_priority_bypass`, that of
-- rate-limited ones by the number decided as `reject_rate_limited`, and leaves the two other counts
-- alone; there is one decision for each batch.
pub run-accounts :
    (config : IngestOverloadConfig) (arrivals : List Arrival) (state : IngestPolicyState)
    → decided_on state.stats + length arrivals < 2 ^ 64
    → IsCountedOn (run config arrivals state).0 state.stats (run config arrivals state).1.stats
      × (length (run config arrivals state).0 ≡ length arrivals)
unfolding run
run-accounts config [] state small = ((omega arith, omega arith, omega arith, refl, refl), refl)
run-accounts config (a ∷ rest) state small =
    let step = decide-accounts config a state (omega arith) in
    let one = decided_on-IsCountedOn (decision config a state) state.stats _ step in
    let later = run-accounts config rest (after config a state) (omega (arith, one)) in
    (
      IsCountedOn-cons (decision config a state) (run config rest (after config a state)).0
          state.stats (after config a state).stats (run config rest (after config a state)).1.stats
          step later.0,
      ap suc later.1,
    )
