-- ===== src/RateLimit.antt =====
-- rate_limit.py: `SlidingWindowRateLimiter`. Times and windows are whole microseconds of the
-- monotonic clock, and the table of deques is an association list in insertion order.
pub mod Window
pub mod Entries
mod Examples
use icloud_code_gateway.Base.{
  ℕ, ◌+◌, ◌-◌, ◌*◌, ◌/◌, max, String, Bool, true, false, ◌&&◌, List, [], ◌∷◌, ◌++◌, leb, ltb,
  str_eq, length, if◌then◌else◌,
}

pub record RateLimitDecision : Type 0 where
  pub allowed : Bool
  pub retry_after : ℕ

pub record Identifier : Type 0 where
  pub bucket : String
  pub key : String

abbrev pub same : Identifier → Identifier → Bool
same a b = str_eq a.bucket b.bucket && str_eq a.key b.key

abbrev pub Events : Type 0
Events = List (Identifier × List ℕ)

abbrev pub second : ℕ
second = 1_000_000

-- `self._events[identifier]` of the `defaultdict`: a missing entry is an empty deque.
unfoldable pub events_of : Identifier → Events → List ℕ
events_of i [] = []
events_of i ((j, es) ∷ t) = if same j i then es else events_of i t

unfoldable pub store : Identifier → List ℕ → Events → Events
store i es [] = (i, es) ∷ []
store i es ((j, fs) ∷ t) = if same j i then (j, es) ∷ t else (j, fs) ∷ store i es t

-- `while events and events[0] <= cutoff: events.popleft()`, with `cutoff = now - window`.
unfoldable pub drop_expired : ℕ → ℕ → List ℕ → List ℕ
drop_expired window now [] = []
drop_expired window now (e ∷ es) =
    let rest = drop_expired window now es in if leb (e + window) now then rest else e ∷ es

abbrev first : List ℕ → ℕ
first [] = 0
first (e ∷ es) = e

-- `not events or events[-1] <= cutoff`
pub is_stale : ℕ → ℕ → List ℕ → Bool
is_stale window now [] = true
is_stale window now (e ∷ []) = leb (e + window) now
is_stale window now (e ∷ f ∷ es) = is_stale window now (f ∷ es)

pub drop_stale : ℕ → ℕ → Events → Events
drop_stale window now [] = []
drop_stale window now ((i, es) ∷ t) =
    let rest = drop_stale window now t in if is_stale window now es then rest else (i, es) ∷ rest

unfoldable pub purge_empty : ℕ → ℕ → Events → Events
purge_empty now active_window t =
    if ltb (length t) 1000 then t else drop_stale (max active_window (3600 * second)) now t

-- `int(events[0] + bounded_window - now + 0.999)`, at least 1, in seconds.
pub retry_after_of : ℕ → ℕ → List ℕ → ℕ
retry_after_of window now es = max 1 ((first es + window + 999_000 - now) / second)

unfoldable pub check : Identifier → ℕ → ℕ → ℕ → Events → RateLimitDecision × Events
unfolding retry_after_of
check i limit window now t =
    let bounded_limit = max 1 limit in
    let bounded_window = max second window in
    let live = drop_expired bounded_window now (events_of i t) in
    if leb bounded_limit (length live)
    then (
      record { allowed = false; retry_after = retry_after_of bounded_window now live },
      store i live t,
    )
    else (
      record { allowed = true; retry_after = 0 },
      purge_empty now bounded_window (store i (live ++ now ∷ []) t),
    )
