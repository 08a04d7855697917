-- ===== src/Mailbox/Loop/Turns.antt =====
-- How a turn of the thread ends.
use native.Mathlib.Nat.{pow-le-pow_right}
use icloud_code_gateway.Base.{
  ℕ, ◌+◌, ◌*◌, ◌^◌, ◌≤◌, min, ◌≡◌, ◌≢◌, inl, inr, refl, Bool, Option, none, some, Bool-cases, arith,
  returned, raised, Outcome,
}
use icloud_code_gateway.Mailbox.Index.{second}
use icloud_code_gateway.Mailbox.Config.{scan_folders, ImapConfig}
use icloud_code_gateway.Mailbox.Ingest.{ingest, Fault, Watcher}
use icloud_code_gateway.Mailbox.Loop.{
  Settings, Thread, Pause, Services, backoff, close_connection, ensure_connection, is_open_for,
  connected, safe_config, handle_failure, succeed, after_ingest, after_connection, after_config,
  turn,
}

pow_mono : (n m : ℕ) → n ≤ m → 2 ^ n ≤ 2 ^ m
pow_mono n m h = pow-le-pow_right (omega arith) h

backoff_bounds :
    (failures : ℕ) → (2 * second ≤ backoff (failures + 1)) × (backoff (failures + 1) ≤ 60 * second)
unfolding backoff
backoff_bounds failures =
    let n = min (failures + 1) 6 in
    let doubled : 2 ^ 1 ≤ 2 ^ n = pow_mono 1 n (omega arith) in (grind arith, omega arith)

-- What a turn comes to: no mailbox to read, an exception, or a cycle that did or did not add a code.
pub data Course : Type 0 where
  no_mailbox : Course
  failed : Fault → Course
  completed : Bool → Course

-- The course of a turn, from what the configuration, the connection and the cycle return.
module _ {C M : Type 0} (env : Services C M) (s : Settings) where
  abbrev pub of_cycle : Outcome Fault Bool → Course
  of_cycle (raised e) = failed e
  of_cycle (returned added) = completed added

  abbrev pub of_connection : ImapConfig → Outcome Fault (Unit {0}) × Thread × C → Course
  of_connection config (raised e, t, c) = failed e
  of_connection config (returned _, t, c) =
      of_cycle (ingest env.imap s.retention (scan_folders env.casefold config) t.watcher c).0

  abbrev pub of_config : Thread → Option ImapConfig × C → Course
  of_config t (none, c) = no_mailbox
  of_config t (some config, c) = of_connection config (ensure_connection env s config t c)

  abbrev pub course : Thread → C → Course
  course t c = of_config t (safe_config env s c)

module _ {C : Type 0} where
  -- What a turn of each course leaves, and how it waits.
  abbrev pub Ends : Thread → Course → (Thread × C) × Pause → Type 0
  Ends before no_mailbox (after, Pause.sleep d) = (after.0 ≡ before) × (50_000 ≤ d)
  Ends before no_mailbox (after, Pause.back_off d) = ⊥
  Ends before (failed e) (after, Pause.sleep d) = ⊥
  Ends before (failed e) (after, Pause.back_off d) =
      (after.0.connection ≡ none)
      × (after.0.consecutive_failures ≡ before.consecutive_failures + 1)
      × (after.0.last_error ≡ some e)
      × (2 * second ≤ d)
      × (d ≤ 60 * second)
  Ends before (completed added) (after, Pause.sleep d) =
      (after.0.consecutive_failures ≡ 0)
      × (after.0.last_error ≡ none)
      × (after.0.last_success ≢ none)
      × (50_000 ≤ d)
  Ends before (completed added) (after, Pause.back_off d) = ⊥

module _ {C M : Type 0} (env : Services C M) (s : Settings) where
  handle_failure-Ends :
      (before t : Thread) (e : Fault) (c : C)
      → t.consecutive_failures ≡ before.consecutive_failures
      → Ends before (failed e) (handle_failure env s e t c)
  unfolding handle_failure close_connection
  handle_failure-Ends before t e c same =
      let bounds = backoff_bounds before.consecutive_failures in
      rw same (refl, refl, refl, bounds.0, bounds.1)

  succeed-Ends :
      (before t : Thread) (added : Bool) (c : C)
      → Ends before (completed added) (succeed env s added t c)
  unfolding succeed
  succeed-Ends before t added c = (refl, refl, λ e. cc, omega arith)

  after_ingest-Ends :
      (before t : Thread) (done : Outcome Fault Bool × Watcher × C)
      → t.consecutive_failures ≡ before.consecutive_failures
      → Ends before (of_cycle env s done.0) (after_ingest env s t done)
  after_ingest-Ends before t (returned added, w, c) same = succeed-Ends before _ added c
  after_ingest-Ends before t (raised e, w, c) same = handle_failure-Ends before _ e c same

  after_connection-Ends :
      (before : Thread) (config : ImapConfig) (made : Outcome Fault (Unit {0}) × Thread × C)
      → made.1.consecutive_failures ≡ before.consecutive_failures
      → Ends before (of_connection env s config made) (after_connection env s config made)
  after_connection-Ends before config (raised e, t, c) same = handle_failure-Ends before t e c same
  after_connection-Ends before config (returned _, t, c) same = after_ingest-Ends before t _ same

  connected-failures :
      (config : ImapConfig) (t : Thread) (made : Outcome Fault (Unit {0}) × C)
      → (connected env s config t made).1.consecutive_failures ≡ t.consecutive_failures
  connected-failures config t (raised e, c) = refl
  connected-failures config t (returned _, c) = refl

  ensure_connection-failures :
      (config : ImapConfig) (t : Thread) (c : C)
      → (ensure_connection env s config t c).1.consecutive_failures ≡ t.consecutive_failures
  unfolding ensure_connection close_connection
  ensure_connection-failures config t c = elim (Bool-cases (is_open_for env s config t)) [
    | inl open_now ↦ rw open_now
    | inr shut ↦ rw (shut) (
        connected-failures config (close_connection env s t c).0
          (env.connect config (close_connection env s t c).1))
  ]

  after_config-Ends :
      (t : Thread) (config : Option ImapConfig × C)
      → Ends t (of_config env s t config) (after_config env s t config)
  after_config-Ends t (none, c) = (refl, omega arith)
  after_config-Ends t (some config, c) =
      after_connection-Ends t config _ (ensure_connection-failures config t c)

  -- How a turn ends is decided by what the configuration, the connection and the cycle return. If
  -- there is no configuration, also because its provider raised, nothing of the thread changes and the
  -- turn sleeps. If connecting or the cycle raises, the connection is closed, the failure is counted and
  -- kept as the last error, and the turn backs off for two to sixty seconds. Otherwise the count of
  -- failures is zero again, there is no last error, there is a last success, and the turn sleeps. A
  -- sleep lasts at least 50 milliseconds.
  pub turn-Ends : (t : Thread) (c : C) → Ends t (course env s t c) (turn env s t c)
  unfolding turn
  turn-Ends t c = after_config-Ends t (safe_config env s c)
