-- ===== src/Ingest/Policy.antt =====
-- `SharedIngestPolicy` of logjetd/src/daemon.rs. Times are nanoseconds; the two readings of the clock
-- in one call are arguments. What is written to the terminal is left out.
use logjet.Base.{
  ℕ, ◌+◌, ◌*◌, max, Bool, true, false, ◌||◌, if◌then◌else◌, ltb, leb, ◌==◌, saturating_add,
  saturating_sub,
}

pub data SeverityFloor : Type 0 where
  trace debug info warn error fatal : SeverityFloor

pub data BatchPriority : Type 0 where
  unknown trace debug info warn error fatal : BatchPriority

-- The discriminants, by which `PartialOrd` compares.
abbrev pub rank : BatchPriority → ℕ
rank unknown = 0
rank BatchPriority.trace = 1
rank BatchPriority.debug = 2
rank BatchPriority.info = 3
rank BatchPriority.warn = 4
rank BatchPriority.error = 5
rank BatchPriority.fatal = 6

abbrev pub batch_priority_floor : SeverityFloor → BatchPriority
batch_priority_floor SeverityFloor.trace = BatchPriority.trace
batch_priority_floor SeverityFloor.debug = BatchPriority.debug
batch_priority_floor SeverityFloor.info = BatchPriority.info
batch_priority_floor SeverityFloor.warn = BatchPriority.warn
batch_priority_floor SeverityFloor.error = BatchPriority.error
batch_priority_floor SeverityFloor.fatal = BatchPriority.fatal

pub data IngestDecision : Type 0 where
  accept accept_priority_bypass reject_rate_limited : IngestDecision

pub record IngestOverloadConfig : Type 0 where
  pub max_batches_per_second : ℕ
  pub priority_severity_floor : SeverityFloor
  pub report_every_ms : ℕ

pub record IngestOverloadStats : Type 0 where
  pub accepted : ℕ
  pub priority_bypass : ℕ
  pub rate_limited : ℕ
  pub oversize_rejected : ℕ
  pub client_cap_rejected : ℕ

pub record IngestPolicyState : Type 0 where
  pub window_start : ℕ
  pub accepted_in_window : ℕ
  pub stats : IngestOverloadStats
  pub next_report_at : ℕ

abbrev pub second : ℕ
second = 1000000000

abbrev pub millis : ℕ → ℕ
millis ms = ms * 1000000

unfoldable pub new : IngestOverloadConfig → ℕ → IngestPolicyState
new config now = record {
  window_start = now;
  accepted_in_window = 0;
  stats = record {
    accepted = 0;
    priority_bypass = 0;
    rate_limited = 0;
    oversize_rejected = 0;
    client_cap_rejected = 0;
  };
  next_report_at = now + millis (max config.report_every_ms 1);
}

unfoldable pub maybe_report_overload :
    IngestOverloadConfig → ℕ → IngestPolicyState → IngestPolicyState
maybe_report_overload config now state =
    if config.report_every_ms == 0
    then state
    else if ltb now state.next_report_at
    then state
    else record state { next_report_at = now + millis (max config.report_every_ms 1) }

-- `duration_since` is 0 for an earlier time.
unfoldable pub roll_window : ℕ → IngestPolicyState → IngestPolicyState
roll_window now state =
    if leb second (saturating_sub now state.window_start)
    then record state { window_start = now; accepted_in_window = 0 }
    else state

unfoldable pub choose : IngestOverloadConfig → BatchPriority → IngestPolicyState → IngestDecision
choose config priority state =
    if config.max_batches_per_second == 0
      || ltb state.accepted_in_window config.max_batches_per_second
    then accept
    else if leb (rank (batch_priority_floor config.priority_severity_floor)) (rank priority)
    then accept_priority_bypass
    else reject_rate_limited

unfoldable pub note_decision : IngestDecision → IngestPolicyState → IngestPolicyState
note_decision accept state = record state {
  accepted_in_window = saturating_add state.accepted_in_window 1;
  stats = record state.stats { accepted = saturating_add state.stats.accepted 1 };
}
note_decision accept_priority_bypass state = record state {
  stats = record state.stats { priority_bypass = saturating_add state.stats.priority_bypass 1 };
}
note_decision reject_rate_limited state = record state {
  stats = record state.stats { rate_limited = saturating_add state.stats.rate_limited 1 };
}

abbrev pub reported : IngestDecision → Bool
reported accept = false
reported accept_priority_bypass = true
reported reject_rate_limited = true

-- `now` is the reading at the start of `decide`, `report_now` that of the report.
unfoldable pub decide :
    IngestOverloadConfig
    → ℕ
    → ℕ
    → BatchPriority
    → IngestPolicyState
    → IngestDecision × IngestPolicyState
decide config now report_now priority state =
    let rolled = roll_window now state in
    let decision = choose config priority rolled in
    let noted = note_decision decision rolled in
    (decision, if reported decision then maybe_report_overload config report_now noted else noted)

unfoldable pub note_oversize : IngestOverloadConfig → ℕ → IngestPolicyState → IngestPolicyState
note_oversize config now state = maybe_report_overload config now (record state {
  stats = record state.stats { oversize_rejected = saturating_add state.stats.oversize_rejected 1 };
})

unfoldable pub note_client_cap : IngestOverloadConfig → ℕ → IngestPolicyState → IngestPolicyState
note_client_cap config now state = maybe_report_overload config now (record state {
  stats = record state.stats {
    client_cap_rejected = saturating_add state.stats.client_cap_rejected 1;
  };
})
