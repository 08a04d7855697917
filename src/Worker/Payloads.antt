-- ===== src/Worker/Payloads.antt =====
-- The pure parts of jobs.py: delays, and what is kept in an item's result across a wait. Durations and
-- the clock are whole microseconds; a time that is stored is cut to milliseconds, as `isoformat` does.
pub mod Delays
pub mod RoundTrips
use icloud_code_gateway.Base.{
  ℕ, suc, ◌+◌, ◌-◌, ◌*◌, ◌/◌, ◌^◌, min, max, String, Bool, true, false, not, ◌&&◌, Option, none,
  some, leb, ltb, ◌==◌, str_eq, or_else, if◌then◌else◌,
}
use icloud_code_gateway.Batch.Rows.{
  Stage, ItemStatus, WaitReason, rate_limited, transient_error, capacity_reached, RetryKind,
  Payload, empty, ItemView,
}

-- The settings of a manager.
pub record Settings : Type 0 where
  pub throttle : ℕ
  pub rate_limit_cooldown : ℕ
  pub transient_retry_base : ℕ
  pub transient_retry_max : ℕ

abbrev pub second : ℕ
second = 1_000_000

-- `BatchJobManager.__init__`, given its settings: the longest delay is not below the first.
unfoldable pub manager_settings : ℕ → ℕ → ℕ → ℕ → Settings
manager_settings throttle cooldown base longest = record {
  throttle = throttle;
  rate_limit_cooldown = cooldown;
  transient_retry_base = base;
  transient_retry_max = max base longest;
}

unfoldable pub transient_retry_delay : Settings → ℕ → ℕ
transient_retry_delay s attempt =
    if s.transient_retry_base == 0
    then 0
    else min s.transient_retry_max (s.transient_retry_base * 2 ^ min (attempt - 1) 10)

-- `_format_timestamp(datetime.now(UTC) + timedelta(seconds=delay))`, in milliseconds.
unfoldable pub resume_time : ℕ → ℕ → ℕ
resume_time now delay = (now + delay) / 1000

-- `_seconds_until`: whole seconds, cut towards zero, never negative.
unfoldable pub seconds_until : ℕ → ℕ → ℕ
seconds_until now resume_at = (resume_at * 1000 - now) / second

abbrev pub waits_for : WaitReason → Payload → Bool
waits_for rate_limited p = elim p.wait_reason [ some rate_limited ↦ true | _ ↦ false ]
waits_for transient_error p = elim p.wait_reason [ some transient_error ↦ true | _ ↦ false ]
waits_for capacity_reached p = elim p.wait_reason [ some capacity_reached ↦ true | _ ↦ false ]

abbrev pub is_waiting : WaitReason → Option Payload → Bool
is_waiting reason none = false
is_waiting reason (some p) = waits_for reason p

-- There is a resume time, and at least a second of it is left.
abbrev pub is_ahead : ℕ → Option Payload → Bool
is_ahead now none = false
is_ahead now (some p) = elim p.resume_at [ none ↦ false | some t ↦ ltb 0 (seconds_until now t) ]

-- `_item_is_cooling_down` and `_item_is_retrying`
unfoldable pub item_is_cooling_down : Settings → ℕ → ItemView → Bool
unfolding seconds_until
item_is_cooling_down s now it =
    is_waiting rate_limited it.result && not (s.rate_limit_cooldown == 0) && is_ahead now it.result

unfoldable pub item_is_retrying : ℕ → ItemView → Bool
unfolding seconds_until
item_is_retrying now it = is_waiting transient_error it.result && is_ahead now it.result

-- The result without the keys that `_clear_rate_limit_wait` drops.
unfoldable pub without_rate_limit : Payload → Payload
without_rate_limit p = record p {
  candidate = none;
  reconcile_before_reserve = false;
  wait_reason = none;
  resume_at = none;
  code = none;
  retry_after_seconds = none;
}

-- The result without the keys that `_clear_transient_wait` drops.
unfoldable pub without_transient : Payload → Payload
without_transient p = record p {
  wait_reason = none;
  resume_at = none;
  retry_kind = none;
  retry_after_seconds = none;
}

abbrev pub is_set : Option String → Bool
is_set none = false
is_set (some s) = not (str_eq s "")

-- The stage of an item that goes back to the queue after a rate limit, with this result.
unfoldable pub rate_limit_stage_of : Payload → Stage
rate_limit_stage_of p = if is_set p.candidate then Stage.generated else Stage.queued

-- The stage of an item that goes back to the queue after a transient wait, with this result.
unfoldable pub stage_of : Payload → Stage
stage_of p =
    if p.reconcile_before_reserve
    then Stage.reconciling
    else if is_set p.candidate
    then Stage.generated
    else Stage.queued

-- `saved_result` of `_pause_for_transient_retry`.
unfoldable pub with_transient_retry : Settings → ℕ → RetryKind → Bool → Option Payload → Payload
unfolding transient_retry_delay resume_time without_transient
with_transient_retry s now kind reconcile result =
    let saved = without_transient (or_else result empty) in
    let attempts = or_else saved.transient_retry_attempts 0 + 1 in
    let delay = transient_retry_delay s attempts in
    record saved {
      wait_reason = some transient_error;
      resume_at = some (resume_time now delay);
      retry_kind = some kind;
      retry_after_seconds = some (delay / second);
      transient_retry_attempts = some attempts;
      reconcile_before_reserve = if reconcile then true else saved.reconcile_before_reserve;
    }

-- The stage that `_pause_for_transient_retry` stores with it.
unfoldable pub waiting_stage : Payload → Stage
waiting_stage p =
    if p.reconcile_before_reserve then Stage.waiting_reconcile else Stage.waiting_retry

-- `saved_result` of `_pause_for_capacity`.
unfoldable pub with_capacity : String → Option Payload → Payload
unfolding without_transient
with_capacity code result = record (without_transient (or_else result empty)) {
  candidate = none;
  reconcile_before_reserve = false;
  transient_retry_attempts = none;
  wait_reason = some capacity_reached;
  code = some code;
}

-- `payload` of `_pause_for_rate_limit`.
unfoldable pub with_rate_limit : ℕ → String → ℕ → Option Payload → Payload
unfolding resume_time
with_rate_limit now code delay result = record (or_else result empty) {
  wait_reason = some rate_limited;
  resume_at = some (resume_time now delay);
  code = some code;
  retry_after_seconds = some (delay / second);
}

-- The result that `_candidate_item` builds.
unfoldable pub candidate_result : Option Payload → String → Bool → Payload
unfolding without_transient
candidate_result result candidate reconcile = record (without_transient (or_else result empty)) {
  candidate = if str_eq candidate "" then none else some candidate;
  reconcile_before_reserve = reconcile;
}

-- `_candidate_item`
unfoldable pub candidate_item : ItemView → String → Bool → ItemView
unfolding candidate_result
candidate_item it candidate reconcile = record it {
  result = some (candidate_result it.result candidate reconcile);
  stage =
      if reconcile
      then Stage.reconciling
      else if str_eq candidate ""
      then Stage.queued
      else Stage.generated;
  status = ItemStatus.queued;
}
