-- ===== src/Worker/Resume/Ends.antt =====
-- The wait ends, if the clock goes on while the worker sleeps, also where it is set back.
use icloud_code_gateway.Base.{
  ℕ, zero, suc, ◌+◌, ◌-◌, ◌*◌, ◌/◌, ◌≤◌, ◌<◌, min, ◌≡◌, ◌≢◌, inl, inr, false, some, ◌==◌, arith,
  Bool-cases, returned,
}
use icloud_code_gateway.Worker.Payloads.{second, seconds_until}
use icloud_code_gateway.Worker.Environment.{Environment, State}
use icloud_code_gateway.Worker.Environment.Actions.{◌>>=◌, ask}
use icloud_code_gateway.Worker.Resume.{Waited, left_of, wait_for_resume}

-- A clock of the environment: it never goes back, a reading is not before it and not after what it shows
-- then, and a sleep that nothing ends lasts as long as it was asked to.
pub record Clock {W : Type 0} (env : Environment W) : Type 0 where
  pub time : W → ℕ
  pub reading : (w : W) → (time w ≤ (env.now w).0) × ((env.now w).0 ≤ time (env.now w).1)
  pub asked : (w : W) → time w ≤ time (env.stopping w).1
  pub slept :
      (d : ℕ) (w : W) → (env.stop_wait d w).0 ≡ false → time w + d ≤ time (env.stop_wait d w).1

pub left_later : (resume_at a b : ℕ) → a ≤ b → seconds_until b resume_at ≤ seconds_until a resume_at
unfolding seconds_until
left_later resume_at a b h = omega arith

-- The time that passes, by which a sleep that nothing ends lasts as long as it was asked to, and a clock
-- that may be set back, as long as it never shows more than `lag` microseconds less than that time.
pub record Elapsed {W : Type 0} (env : Environment W) (lag : ℕ) : Type 0 where
  pub time : W → ℕ
  pub read : (w : W) → (time w ≤ (env.now w).0 + lag) × (time w ≤ time (env.now w).1)
  pub asked : (w : W) → time w ≤ time (env.stopping w).1
  pub slept :
      (d : ℕ) (w : W) → (env.stop_wait d w).0 ≡ false → time w + d ≤ time (env.stop_wait d w).1

-- The whole seconds until the clock shows the resume time at the latest.
unfoldable pub seconds_left : (resume_at lag time : ℕ) → ℕ
seconds_left resume_at lag time = (resume_at * 1000 + lag - time) / second

sleep_of : (n : ℕ) → (n == 0) ≡ false → min second (n * second) ≡ second
sleep_of n h = ground arith

-- Where the clock shows that a second is left, a sleep of a second leaves fewer of them.
left_step :
    (resume_at lag shown before after : ℕ)
    → (seconds_until shown resume_at == 0) ≡ false
    → before ≤ shown + lag
    → before + second ≤ after
    → seconds_left resume_at lag after < seconds_left resume_at lag before
unfolding seconds_until seconds_left
left_step resume_at lag shown before after n h g = ground arith

module _ {W : Type 0} (env : Environment W) (lag : ℕ) (elapsed : Elapsed env lag)
    (resume_at : ℕ) where
  turn-step :
      (w : W)
      → let read = env.now (env.stopping w).1 in
        let left = seconds_until read.0 resume_at in
        let woken = env.stop_wait (min second (left * second)) read.1 in
        (left == 0) ≡ false
        → woken.0 ≡ false
        → seconds_left resume_at lag (elapsed.time woken.1)
          < seconds_left resume_at lag (elapsed.time w)
  turn-step w some_left asleep =
      let stopped = (env.stopping w).1 in
      let read = env.now stopped in
      let left = seconds_until read.0 resume_at in
      let a = elapsed.asked w in
      let r = elapsed.read stopped in
      let len = sleep_of left some_left in
      let after = elapsed.slept (min second (left * second)) read.1 asleep in
      left_step resume_at lag read.0 (elapsed.time w) _ some_left (omega (arith, r.0))
        (omega (arith, r.1))

  -- The wait ends, because the worker is stopped or the time has come, even if the wall clock is set back
  -- while it lasts. The hypotheses: a sleep that nothing ends takes the time that it was asked for, and the
  -- clock never shows more than `lag` microseconds less than the time that has passed. Then the loop takes
  -- no more turns than there are whole seconds from the start to the resume time and `lag` after it, and
  -- one more.
  pub wait_for_resume-ends :
      (fuel : ℕ) (s : State W)
      → seconds_left resume_at lag (elapsed.time s.world) < fuel
      → (wait_for_resume env fuel (some resume_at) s).0 ≢ returned Waited.out_of_fuel
  unfolding wait_for_resume ◌>>=◌ ask left_of
  wait_for_resume-ends zero s h = absurd (omega arith)
  wait_for_resume-ends (suc fuel) s h =
      let read = env.now (env.stopping s.world).1 in
      let left = seconds_until read.0 resume_at in
      let woken = env.stop_wait (min second (left * second)) read.1 in
      elim (Bool-cases (env.stopping s.world).0) [
        | inl stop ↦ rw stop (λ e. cc e)
        | inr on ↦ elim (Bool-cases (left == 0)) [
          | inl over ↦ rw on (rw over (λ e. cc e))
          | inr some_left ↦ elim (Bool-cases woken.0) [
            | inl awake ↦ rw on (rw some_left (rw awake (λ e. cc e)))
            | inr asleep ↦ rw on (
                rw some_left (
                  rw asleep (
                    wait_for_resume-ends fuel (record s { world = woken.1 })
                      (let less = turn-step s.world some_left asleep in omega arith))))
          ]
        ]
      ]
