-- ===== src/Worker/Payloads/Delays.antt =====
-- How long the worker waits between transient retries.
use icloud_code_gateway.Base.{ℕ, suc, ◌+◌, ◌-◌, ◌*◌, ◌^◌, ◌≤◌, ◌<◌, min, max, ◌≡◌, arith}
use native.Mathlib.Nat.{pow-le-pow_right, pow-suc}
use icloud_code_gateway.Worker.Payloads.{
  second, manager_settings, transient_retry_delay, resume_time, seconds_until,
}

scale_le : (c a b : ℕ) → a ≤ b → c * a ≤ c * b
scale_le c a b h = grind arith

scale_double : (c a b : ℕ) → b ≤ 2 * a → c * b ≤ 2 * (c * a)
scale_double c a b h = omega (arith, scale_le c b (2 * a) h)

pow_mono : (n m : ℕ) → n ≤ m → 2 ^ n ≤ 2 ^ m
pow_mono n m h = pow-le-pow_right (omega arith) h

pow_step : (n m : ℕ) → m ≤ suc n → 2 ^ m ≤ 2 * 2 ^ n
pow_step n m h = omega (arith, pow_mono m (suc n) h, pow-suc 2 n)

-- The delay never shrinks from one attempt to the next, starts at the configured base, at most doubles,
-- and stays below the configured maximum, for every setting that the constructor can make.
transient_retry_delay_bounds :
    (throttle cooldown base longest attempt : ℕ)
    → let s = manager_settings throttle cooldown base longest in
      (transient_retry_delay s 1 ≡ base)
      × (transient_retry_delay s attempt ≤ transient_retry_delay s (attempt + 1))
      × (transient_retry_delay s (attempt + 1) ≤ 2 * max base (transient_retry_delay s attempt))
      × (transient_retry_delay s attempt ≤ max base longest)
unfolding transient_retry_delay manager_settings
transient_retry_delay_bounds throttle cooldown base longest attempt =
    let e = min (attempt - 1) 10 in
    let f = min (attempt + 1 - 1) 10 in
    let grows : base * 2 ^ e ≤ base * 2 ^ f =
      scale_le base (2 ^ e) (2 ^ f) (pow_mono e f (omega arith)) in
    let doubles : base * 2 ^ f ≤ 2 * (base * 2 ^ e) =
      scale_double base (2 ^ e) (2 ^ f) (pow_step e f (omega arith)) in
    (ground arith, ground arith, ground arith, ground arith)

-- What a worker still waits of a stored delay, in whole seconds, is never more than what is left of the
-- delay, so nothing once it has passed, and falls short of it by less than a second and a millisecond.
pub seconds_until-resume_time :
    (now later delay : ℕ)
    → (seconds_until later (resume_time now delay) * second ≤ now + delay - later)
      × (now + delay < later + seconds_until later (resume_time now delay) * second + second + 1000)
unfolding seconds_until resume_time
seconds_until-resume_time now later delay = omega arith
