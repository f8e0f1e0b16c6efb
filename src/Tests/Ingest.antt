-- ===== src/Tests/Ingest.antt =====
-- The theorems on ingest at concrete batches and clients.
use logjet.Base.{ℕ, ◌+◌, ◌≤◌, ◌≡◌, refl, List, [], ◌∷◌, length, ltb, if◌then◌else◌, arith}
use logjet.Ingest.Policy
use logjet.Ingest.Policy.{
  SeverityFloor, BatchPriority, IngestDecision, accept, accept_priority_bypass, reject_rate_limited,
  IngestOverloadConfig, IngestPolicyState,
}
use logjet.Ingest.Decisions.{Arrival, accepts, IsCountedOn}
use logjet.Ingest.Accounts.{run, run-window, run-accounts}
use logjet.Ingest.Limiter
use logjet.Ingest.Limiter.{
  ConnectionLimiter, Phase, arrived, holding, gone, turn, Daemon, Reach, here, next, connect,
  take_turn, IsCounted, counting, holders, Reach-IsCounted, Reach-acquire,
}

abbrev config : IngestOverloadConfig
config = record {
  max_batches_per_second = 1;
  priority_severity_floor = SeverityFloor.error;
  report_every_ms = 1000;
}

abbrev policy : IngestPolicyState
policy = Policy.new config 5

abbrev arrival : ℕ → BatchPriority → Arrival
arrival now priority = record { now = now; report_now = now; priority = priority }

-- The second batch bypasses the limit, the third is rejected.
abbrev arrivals : List Arrival
arrivals =
    arrival 6 BatchPriority.info ∷ arrival 7 BatchPriority.fatal ∷ arrival 8 BatchPriority.warn ∷ []

decisions_test :
    (run config arrivals policy).0 ≡ accept ∷ accept_priority_bypass ∷ reject_rate_limited ∷ []
unfolding run Policy.decide Policy.roll_window Policy.choose Policy.note_decision
    Policy.maybe_report_overload Policy.new
decisions_test = refl

run-window_example :
    (policy.accepted_in_window + accepts (run config arrivals policy).0 ≤ 1)
    × ((run config arrivals policy).1.window_start ≡ policy.window_start)
unfolding Policy.new
run-window_example =
    run-window config arrivals policy (omega arith, (omega arith, (omega arith, tt))) (omega arith)
      (omega arith) (omega arith)

run-accounts_example :
    IsCountedOn (run config arrivals policy).0 policy.stats (run config arrivals policy).1.stats
    × (length (run config arrivals policy).0 ≡ length arrivals)
unfolding Policy.new
run-accounts_example = run-accounts config arrivals policy (omega arith)

abbrev started : Daemon
started = record { limiter = Limiter.new 1; clients = [] }

-- One client has connected and done its load.
abbrev connected : Daemon
connected = record started { clients = arrived ∷ [] }

abbrev one_turn : Daemon
one_turn = record {
  limiter = (turn arrived started.limiter).1;
  clients = (turn arrived started.limiter).0 ∷ [];
}

one_turn-Reach : Reach started one_turn
one_turn-Reach = next (next here (connect started)) (take_turn started.limiter [] arrived [])

Reach-IsCounted_example : IsCounted one_turn × (one_turn.limiter.max_clients ≡ 1)
Reach-IsCounted_example = Reach-IsCounted 1 (omega arith) one_turn-Reach

Reach-acquire_example : turn (turn arrived one_turn.limiter).0 one_turn.limiter ≡ (
    if ltb (holders one_turn.clients) 1
    then (holding, counting 1 (holders one_turn.clients + 1))
    else (gone, counting 1 (holders one_turn.clients)))
Reach-acquire_example = Reach-acquire 1 one_turn (omega arith) one_turn-Reach
