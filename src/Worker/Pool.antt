-- ===== src/Worker/Pool.antt =====
-- internal/worker/pool.go: one poll of the job table. Goroutines that poll at the same time are in
-- Pool/Interleaving. Log lines are left out.
pub mod Interleaving
pub mod Outcome
use creel.Base.{
  ℕ, suc, String, Bool, true, false, List, [], ◌∷◌, Option, none, some, ℤ, pos, negsuc,
  if◌then◌else◌,
}
use creel.Exec.{Exec, Result, ok, err}
use creel.Store.Rows.{ProcessingJob, JobStatus, completed}
use creel.Store.World.{World, Error}
use creel.Store.Jobs.{claim_next, update_status}

-- `NewPool`: settings that are not positive take their defaults; an interval is in nanoseconds.
unfoldable pub pool_concurrency : ℤ → ℕ
pool_concurrency (pos (suc n)) = suc n
pool_concurrency _ = 4

unfoldable pub pool_poll_interval : ℤ → ℕ
pool_poll_interval (pos (suc n)) = suc n
pool_poll_interval _ = 5_000_000_000

-- The interface Worker: what `Process` does for a job.
abbrev pub Process : Type 0
Process = ProcessingJob → Exec World Error (Unit {0})

-- The end of `tryProcess`: a failed update of the status is only logged.
unfoldable pub settle : ProcessingJob → Result Error (Unit {0}) → World → World
unfolding update_status
settle job (err e) w = (update_status job.id JobStatus.failed (some e) w).1
settle job (ok _) w = (update_status job.id completed none w).1

unfoldable pub run_job : Process → ProcessingJob → World → World
unfolding settle
run_job process job w = settle job (process job w).0 (process job w).1

-- `tryProcess`: a claim that fails or finds no job ends the attempt.
unfoldable pub try_process : Process → String → World → World
unfolding claim_next run_job
try_process process job_type w = elim (claim_next job_type w).0 [
  | ok (some job) ↦ run_job process job (claim_next job_type w).1
  | ok none ↦ (claim_next job_type w).1
  | err e ↦ (claim_next job_type w).1
]

-- `pollOnce` over the registered workers, in the order in which the map yields them; `cancelled` is
-- what `ctx.Err()` shows before each attempt.
unfoldable pub poll_once : (World → Bool) → List (String × Process) → World → World
poll_once cancelled [] w = w
poll_once cancelled ((job_type, process) ∷ workers) w =
    if cancelled w then w else poll_once cancelled workers (try_process process job_type w)
