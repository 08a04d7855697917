-- ===== src/Worker/Payloads/RoundTrips.antt =====
-- What an item keeps across a wait.
use icloud_code_gateway.Base.{
  ℕ, ◌+◌, String, if◌then◌else◌, ◌≡◌, Bool, false, ◌||◌, none, some, or_else, arith,
}
use icloud_code_gateway.Batch.Rows.{Stage, RetryKind, Payload}
use icloud_code_gateway.Worker.Payloads.{
  Settings, is_set, rate_limit_stage_of, stage_of, without_transient, without_rate_limit,
  with_transient_retry, with_rate_limit,
}

-- A transient wait, once it is stored and cleared again, has kept the candidate, has kept or set the
-- mark that it must be looked up before it is reserved, has counted one more attempt, and has left no
-- trace of the wait itself; an item with the mark goes back to the queue for reconciliation, whatever
-- else it holds, and one without it as generated or queued, by whether it has a candidate.
transient_wait_keeps :
    (s : Settings) (now : ℕ) (kind : RetryKind) (reconcile : Bool) (p : Payload)
    → let cleared = without_transient (with_transient_retry s now kind reconcile (some p)) in
      (cleared.candidate ≡ p.candidate)
      × (cleared.reconcile_before_reserve ≡ (reconcile || p.reconcile_before_reserve))
      × (cleared.transient_retry_attempts ≡ some (or_else p.transient_retry_attempts 0 + 1))
      × (cleared.wait_reason ≡ none)
      × (cleared.resume_at ≡ none)
      × (stage_of cleared ≡ (
          if reconcile || p.reconcile_before_reserve
          then Stage.reconciling
          else if is_set p.candidate
          then Stage.generated
          else Stage.queued))
unfolding without_transient with_transient_retry stage_of
transient_wait_keeps s now kind reconcile p = ground arith

-- A rate limit means that Apple did not reserve the candidate: once the wait is cleared there is no
-- candidate and no mark, so a fresh one is generated.
rate_limit_wait_drops :
    (now : ℕ) (code : String) (delay : ℕ) (p : Payload)
    → let cleared = without_rate_limit (with_rate_limit now code delay (some p)) in
      (cleared.candidate ≡ none)
      × (cleared.reconcile_before_reserve ≡ false)
      × (cleared.wait_reason ≡ none)
      × (rate_limit_stage_of cleared ≡ Stage.queued)
unfolding without_rate_limit with_rate_limit rate_limit_stage_of
rate_limit_wait_drops now code delay p = ground arith
