-- ===== src/RateLimit/Window.antt =====
-- What `check` of rate_limit.py promises: the sliding window is never overfull.
use icloud_code_gateway.RateLimit.Entries.{
  count_live, count_live-le-length, count_live-append, count_live-drop_expired,
  count_live-drop_expired_le, events_of-store, events_of-store_ne, events_of-purge_empty,
  is_stale-append_now,
}
use icloud_code_gateway.Base.{
  ℕ, ◌+◌, ◌*◌, ◌≤◌, ◌<◌, max, ◌≡◌, refl, ◌∙◌, inl, inr, false, List, [], ◌∷◌, ◌++◌, leb, ltb,
  length, length-append, arith, Bool-cases, if◌then◌else◌,
}
use icloud_code_gateway.RateLimit.{
  Identifier, Events, second, same, events_of, store, drop_expired, is_stale, purge_empty,
  retry_after_of, check,
}

module _ (i : Identifier) (limit window now : ℕ) (t : Events) where
  abbrev pub live : List ℕ
  live = drop_expired (max second window) now (events_of i t)

  -- The deque of the identifier after a check: what was live, and the new event if it is allowed.
  events_of-check :
      events_of i (check i limit window now t).1
      ≡ (if (check i limit window now t).0.allowed then live ++ now ∷ [] else live)
  unfolding check
  events_of-check = elim (Bool-cases (leb (max 1 limit) (length live))) [
    | inl full ↦ rw full (events_of-store i live t)
    | inr room ↦ rw room kept
  ]
    where
      stored : events_of i (store i (live ++ now ∷ []) t) ≡ live ++ now ∷ []
      stored = events_of-store i (live ++ now ∷ []) t

      fresh :
          is_stale
            (max (max second window) (3600 * second))
            now
            (events_of i (store i (live ++ now ∷ []) t))
          ≡ false
      fresh =
          rw stored
            (is_stale-append_now (max (max second window) (3600 * second)) now live (omega arith))

      kept :
          events_of i (purge_empty now (max second window) (store i (live ++ now ∷ []) t))
          ≡ live ++ now ∷ []
      kept =
          events_of-purge_empty i now (max second window) (store i (live ++ now ∷ []) t) fresh
          ∙ stored

  -- A check is allowed exactly when the deque holds fewer live events than the limit.
  allowed-check : (check i limit window now t).0.allowed ≡ ltb (length live) (max 1 limit)
  unfolding check
  allowed-check = ground arith

  -- A check of one identifier leaves the deque of any other alone while that deque's newest event is
  -- younger than the purge age, which is the window or an hour, whichever is longer.
  pub check_frame :
      (j : Identifier)
      → same i j ≡ false
      → is_stale (max (max second window) (3600 * second)) now (events_of j t) ≡ false
      → events_of j (check i limit window now t).1 ≡ events_of j t
  unfolding check
  check_frame j other fresh = elim (Bool-cases (leb (max 1 limit) (length live))) [
    | inl full ↦ rw full (events_of-store_ne i j live t other)
    | inr room ↦ rw room kept
  ]
    where
      stored : events_of j (store i (live ++ now ∷ []) t) ≡ events_of j t
      stored = events_of-store_ne i j (live ++ now ∷ []) t other

      kept :
          events_of j (purge_empty now (max second window) (store i (live ++ now ∷ []) t))
          ≡ events_of j t
      kept =
          events_of-purge_empty j now (max second window) (store i (live ++ now ∷ []) t)
            (rw stored fresh)
          ∙ stored

-- The checks of one identifier at the given times, and the times at which it was allowed.
unfoldable pub allowed_times : Identifier → ℕ → ℕ → List ℕ → Events → List ℕ
allowed_times i limit window [] t = []
allowed_times i limit window (now ∷ times) t =
    let rest = allowed_times i limit window times (check i limit window now t).1 in
    if (check i limit window now t).0.allowed then now ∷ rest else rest

abbrev pub Nondecreasing : ℕ → List ℕ → Type 0
Nondecreasing low [] = Unit
Nondecreasing low (x ∷ xs) = (low ≤ x) × Nondecreasing x xs

module _ (i : Identifier) (limit window : ℕ) where
  abbrev bound : ℕ
  bound = max 1 limit

  abbrev span : ℕ
  span = max second window

  -- Times that are still to come are not counted.
  count_live-allowed_times_before :
      (n low : ℕ) (times : List ℕ) (t : Events)
      → n < low
      → Nondecreasing low times
      → count_live span n (allowed_times i limit window times t) ≡ 0
  unfolding allowed_times
  count_live-allowed_times_before n low [] t h s = refl
  count_live-allowed_times_before n low (x ∷ times) t h s = ground (
    arith,
    count_live-allowed_times_before n x times (check i limit window x t).1 (omega arith) s.1,
  )

  -- No moment sees more live events in the deque than the limit.
  pub Bounded : Events → Type 0
  Bounded t = (n : ℕ) → count_live span n (events_of i t) ≤ bound

  check-Bounded : (now : ℕ) (t : Events) → Bounded t → Bounded (check i limit window now t).1
  unfolding Bounded
  check-Bounded now t h n = ground (
    arith,
    events_of-check i limit window now t,
    allowed-check i limit window now t,
    h n,
    count_live-drop_expired_le span now n (events_of i t),
    count_live-le-length span n (live i limit window now t ++ now ∷ []),
    length-append (live i limit window now t) (now ∷ []),
  )

  -- Seen from the check on, the deque has gained the new event, if it was allowed, and lost nothing.
  count_live-check :
      (now n : ℕ) (t : Events)
      → now ≤ n
      → count_live span n (events_of i (check i limit window now t).1)
        ≡ count_live span n (events_of i t)
          + (if (check i limit window now t).0.allowed then count_live span n (now ∷ []) else 0)
  count_live-check now n t h = ground (
    arith,
    events_of-check i limit window now t,
    count_live-drop_expired span now n (events_of i t),
    count_live-append span n (live i limit window now t) (now ∷ []),
  )

  allowed_times-bound :
      (n low : ℕ) (times : List ℕ) (t : Events)
      → Nondecreasing low times
      → Bounded t
      → count_live span n (events_of i t) + count_live span n (allowed_times i limit window times t)
        ≤ bound
  unfolding Bounded allowed_times
  allowed_times-bound n low [] t s h = omega (arith, h n)
  allowed_times-bound n low (x ∷ times) t s h = elim (Bool-cases (leb x n)) [
    | inl past ↦ ground (
      arith,
      count_live-check x n t (ground arith),
      allowed_times-bound n x times (check i limit window x t).1 s.1 (check-Bounded x t h),
    )
    | inr future ↦ ground (
      arith,
      h n,
      count_live-allowed_times_before n x times (check i limit window x t).1 (ground arith) s.1,
    )
  ]

  -- Whatever the times at which one identifier is checked, provided the clock never goes back, no
  -- window that ends at any moment `n` holds more allowed checks than the limit. The limiter starts
  -- with no event of that identifier.
  pub allowed_times-within_limit :
      (times : List ℕ) (t : Events)
      → Nondecreasing 0 times
      → events_of i t ≡ []
      → (n : ℕ) → count_live span n (allowed_times i limit window times t) ≤ bound
  allowed_times-within_limit times t s e n =
      omega (arith, allowed_times-bound n 0 times t s (unfold Bounded in λ m. rw e (omega arith)))

-- A refused check says how long to wait. Once the stated seconds and one more millisecond have
-- passed, the oldest event, which kept the window full, is out of the window.
pub retry_after_enough :
    (i : Identifier) (limit window now : ℕ) (t : Events) (oldest : ℕ) (others : List ℕ)
    → (check i limit window now t).0.allowed ≡ false
    → live i limit window now t ≡ oldest ∷ others
    → oldest + max second window ≤ now + (check i limit window now t).0.retry_after * second + 1000
unfolding check retry_after_of
retry_after_enough i limit window now t oldest others denied e = rw e (ground arith)
