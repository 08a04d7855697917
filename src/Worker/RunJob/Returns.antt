-- ===== src/Worker/RunJob/Returns.antt =====
-- `_run_job` returns for a bulk job none of whose items waits.
use icloud_code_gateway.Base.{ℕ, zero, suc, ◌+◌, ◌≤◌, ◌<◌, String, ◌≢◌, refl, arith, returned}
use mathlib.Core.Path.{subst}
use icloud_code_gateway.Batch.Rows.{JobView}
use icloud_code_gateway.Worker.Payloads.{Settings}
use icloud_code_gateway.Worker.Environment.{Environment, State}
use icloud_code_gateway.Worker.Bulk.{Gateway}
use icloud_code_gateway.Worker.RunJob.{RunEnd, Turn, ends, goes_on, go_on_with, run_loop, run_job}
use icloud_code_gateway.Worker.RunJob.Shape.{HasViewShape, Shaped}
use icloud_code_gateway.Worker.RunJob.Bulk.{LeavesJobs}
use icloud_code_gateway.Worker.Triples.{
  Upon, Triple, Anything, Triple->>=, Triple-last, Triple-pure,
}
use icloud_code_gateway.Worker.RunJob.Turns.{Moves, status-any, turn-Moves}

module _ {W : Type 0} (env : Environment W) (settings : Settings) (gateway : Gateway W)
    (keeps : LeavesJobs gateway) (wait_fuel : ℕ) (job_id : String) (n : ℕ) where
  abbrev I : State W → Type 0
  I s = Shaped job_id n s.jobs

  abbrev Moved : ℕ → Turn → State W → Type 0
  Moved = Moves env settings gateway keeps wait_fuel job_id n

  run_loop-ends :
      (fuel : ℕ) (job : JobView) (index : ℕ)
      → HasViewShape n job
      → index ≤ n
      → n < fuel + index
      → Triple I Anything
          (run_loop env settings gateway wait_fuel job_id fuel job index)
          (λ e s. e ≢ RunEnd.out_of_fuel)
  unfolding run_loop
  run_loop-ends zero job index shape h enough = absurd (omega arith)
  run_loop-ends (suc fuel) job index shape h enough =
      Triple->>= I (Moved index)
        (turn-Moves env settings gateway keeps wait_fuel job_id n job index shape)
        (by_turn λ next i shape h enough. run_loop-ends fuel next i shape h enough)
    where
      by_turn :
          ((next : JobView) (i : ℕ)
            → HasViewShape n next
            → i ≤ n
            → n < fuel + i
            → Triple I Anything
                (run_loop env settings gateway wait_fuel job_id fuel next i)
                (λ e s. e ≢ RunEnd.out_of_fuel))
          → (t : Turn)
          → Triple {S = State W} I
              (Moved index t)
              (go_on_with env settings gateway wait_fuel job_id
                (λ next i. run_loop env settings gateway wait_fuel job_id fuel next i)
                t)
              (λ e s. e ≢ RunEnd.out_of_fuel)
      by_turn rest (ends e) = Triple-pure I (λ s p. p)
      by_turn rest (goes_on next i) = record {
        run = λ s inv (i-is, bound, shape).
            (rest next i shape (omega arith) (omega arith)).run s inv tt;
      }

  -- A bulk job none of whose items waits has at most as many turns as items, and one more, whatever Apple
  -- and the clock answer, as long as the gateway leaves the batch tables alone: with that fuel `_run_job`
  -- ends in one of the ways of the source, or raises.
  pub run_job-ends :
      (fuel : ℕ) (job : JobView) (s : State W)
      → HasViewShape n job
      → Shaped job_id n s.jobs
      → n < fuel
      → (run_job env settings gateway wait_fuel job_id fuel job s).0 ≢ returned RunEnd.out_of_fuel
  unfolding run_job
  run_job-ends fuel job s shape held enough e =
      let all_end : Triple I Anything (run_job env settings gateway wait_fuel job_id fuel job)
          (λ e s. e ≢ RunEnd.out_of_fuel) =
        Triple-last I (status-any env settings gateway keeps wait_fuel job_id n _ _)
          λ _. run_loop-ends fuel job 0 shape (omega arith) (omega arith) in
      let known = (all_end.run s held tt).1 in
      subst
        (λ r.
          Upon (λ e s. e ≢ RunEnd.out_of_fuel) r
            (run_job env settings gateway wait_fuel job_id fuel job s).1)
        e known refl
