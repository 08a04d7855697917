-- ===== src/Worker/Resume.antt =====
-- `_wait_for_resume` of jobs.py: the worker sleeps in steps of at most a second until the time that a
-- pause has stored, or until it is stopped.
pub mod Ends
pub mod NotEarly
mod Examples
use icloud_code_gateway.Base.{ℕ, zero, suc, ◌*◌, min, Bool, Option, none, some, ◌==◌, if◌then◌else◌}
use icloud_code_gateway.Worker.Payloads.{second, seconds_until}
use icloud_code_gateway.Worker.Environment.{Environment}
use icloud_code_gateway.Worker.Environment.Actions.{Worker, ◌>>=◌, pure, ask}

-- How the wait ends; `out_of_fuel` is the end of the fuel, which the source does not have.
pub data Waited : Type 0 where
  interrupted resumed out_of_fuel : Waited

-- The whole seconds that are left, and none if there is no time to wait for.
unfoldable pub left_of : ℕ → Option ℕ → ℕ
unfolding seconds_until
left_of now none = 0
left_of now (some resume_at) = seconds_until now resume_at

module _ {W : Type 0} (env : Environment W) where
  -- One turn of the loop for each unit of fuel.
  unfoldable pub wait_for_resume : ℕ → Option ℕ → Worker W Waited
  wait_for_resume zero resume_at = pure Waited.out_of_fuel
  wait_for_resume (suc fuel) resume_at = do
    stop ← ask env.stopping
    if stop then pure Waited.interrupted else (do
      now ← ask env.now
      if left_of now resume_at == 0 then pure Waited.resumed else (do
        woken ← ask (env.stop_wait (min second (left_of now resume_at * second)))
        if woken then pure Waited.interrupted else wait_for_resume fuel resume_at))
