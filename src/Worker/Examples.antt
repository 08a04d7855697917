-- ===== src/Worker/Examples.antt =====
-- Runs of the delays and waits of jobs.py.
use icloud_code_gateway.Base.{◌+◌, ◌-◌, ◌*◌, ◌≤◌, ◌<◌}
use icloud_code_gateway.Worker.Payloads.{second, resume_time, seconds_until}
use icloud_code_gateway.Worker.Payloads.Delays.{seconds_until-resume_time}

seconds_until-resume_time_example :
    (seconds_until 2_500_000 (resume_time 1_000_000 5_000_000) * second
      ≤ 1_000_000 + 5_000_000 - 2_500_000)
    × (1_000_000 + 5_000_000
        < 2_500_000
          + seconds_until 2_500_000 (resume_time 1_000_000 5_000_000) * second
          + second
          + 1000)
seconds_until-resume_time_example = seconds_until-resume_time 1_000_000 2_500_000 5_000_000
