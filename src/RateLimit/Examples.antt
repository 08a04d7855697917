-- ===== src/RateLimit/Examples.antt =====
-- Runs of the rate limiter of rate_limit.py.
use icloud_code_gateway.Base.{arith, ℕ, ◌+◌, ◌*◌, ◌≤◌, max, ◌≡◌, refl, List, [], ◌∷◌}
use icloud_code_gateway.RateLimit.{
  Identifier, Events, second, is_stale, drop_expired, events_of, store, purge_empty, check,
}
use icloud_code_gateway.RateLimit.Window.{
  allowed_times, allowed_times-within_limit, retry_after_enough, check_frame,
}
use icloud_code_gateway.RateLimit.Entries.{count_live}

abbrev lookups : Identifier
lookups = record { bucket = "lookup"; key = "203.0.113.7" }

abbrev logins : Identifier
logins = record { bucket = "login"; key = "203.0.113.7" }

-- Two lookups of the last second, and a login.
abbrev two_events : Events
two_events = (lookups, 4_000_000 ∷ 4_500_000 ∷ []) ∷ (logins, 4_200_000 ∷ []) ∷ []

abbrev times : List ℕ
times = 1 ∷ 2 ∷ 3 ∷ 60_000_001 ∷ []

-- The third check in the window is refused; after a minute there is room again.
allowed_example : allowed_times lookups 2 60_000_000 times [] ≡ 1 ∷ 2 ∷ 60_000_001 ∷ []
unfolding allowed_times check drop_expired events_of store purge_empty
allowed_example = refl

allowed_times-within_limit_example :
    count_live (max second 60_000_000) 50_000_000 (allowed_times lookups 2 60_000_000 times [])
    ≤ max 1 2
unfolding events_of
allowed_times-within_limit_example =
    allowed_times-within_limit lookups 2 60_000_000 times []
      (omega arith, (omega arith, (omega arith, (omega arith, tt)))) refl 50_000_000

retry_after_enough_example :
    4_000_000 + max second 60_000_000
    ≤ 5_000_000 + (check lookups 2 60_000_000 5_000_000 two_events).0.retry_after * second + 1000
unfolding check drop_expired events_of
retry_after_enough_example =
    retry_after_enough lookups 2 60_000_000 5_000_000 two_events 4_000_000 (4_500_000 ∷ []) refl
      refl

check_frame_example :
    events_of logins (check lookups 2 60_000_000 5_000_000 two_events).1
    ≡ events_of logins two_events
unfolding is_stale events_of
check_frame_example = check_frame lookups 2 60_000_000 5_000_000 two_events logins refl refl
