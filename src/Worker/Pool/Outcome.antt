-- ===== src/Worker/Pool/Outcome.antt =====
-- What one `tryProcess` of internal/worker/pool.go leaves in the table when the database answers.
use creel.Base.{
  ℕ, String, true, false, List, [], ◌∷◌, ◌≡◌, ◌≢◌, refl, Option, none, some, arith, first-update,
  Memᴰ-first, exists, ◌==◌, ==_refl, ap, sym, subst, ◌∙◌,
}
use mathlib.Core.Option
use creel.Exec.{Result, ok, err}
use creel.Store.Rows.{ProcessingJob, JobStatus, completed}
use creel.Store.World.{World, Db, Error}
use creel.Store.Jobs.{claim_next, find_job, mark_running, set_status, update_status}
use creel.Store.Jobs.Claim.{Claimed, claim_next-Claimed}
use creel.Worker.Pool.{Process, settle, run_job, try_process}

-- What the row of a job records of how its worker ended.
pub record Settled (result : Result Error (Unit {0})) (row : ProcessingJob) : Type 0 where
  pub status : row.status ≡ elim result [ ok _ ↦ completed | err _ ↦ JobStatus.failed ]
  pub message : (e : Error) → result ≡ err e → row.error ≡ some e
  pub finished : row.completed_at ≢ none

first-exists :
    (id : String) (js : List ProcessingJob) (j : ProcessingJob)
    → find_job id js ≡ some j
    → exists (λ k. k.id == id) js ≡ true
first-exists id [] j h = cc
first-exists id (k ∷ js) j h = ground (arith, first-exists id js j)

updated_row :
    (id : String) (st : JobStatus) (msg : Option String) (w : World) (j : ProcessingJob)
    → w.env.fails w.tick ≡ false
    → find_job id w.db.jobs ≡ some j
    → find_job id (update_status id st msg w).1.db.jobs
      ≡ some (set_status st msg (w.env.now w.tick) j)
unfolding update_status
updated_row id st msg w j f e = ground (
  arith,
  first-exists id w.db.jobs j e,
  first-update (λ k. k.id == id) (set_status st msg (w.env.now w.tick)) (λ k. refl) w.db.jobs,
)

settle-Settled :
    (j row : ProcessingJob) (r : Result Error (Unit {0})) (w : World)
    → w.env.fails w.tick ≡ false
    → find_job j.id w.db.jobs ≡ some row
    → (after : ProcessingJob) × (find_job j.id (settle j r w).db.jobs ≡ some after)
      × Settled r after
unfolding settle set_status
settle-Settled j row (ok a) w f e = (
  _,
  updated_row j.id completed none w row f e,
  record { status = refl; message = λ m q. cc; finished = cc },
)
settle-Settled j row (err m) w f e = (
  _,
  updated_row j.id JobStatus.failed (some m) w row f e,
  record { status = refl; message = λ n q. ground arith; finished = cc },
)

row_of_claim :
    (t : String) {now : ℕ} {before after : Db} (j : ProcessingJob)
    → Claimed t now before after j
    → (row : ProcessingJob) × (find_job j.id after.jobs ≡ some row)
row_of_claim t {now} {before} {after} j c =
    let same : j.id ≡ c.row.id = rw c.returned (unfold mark_running in refl) in
    let (k, e, _) =
      Memᴰ-first (λ i. i.id == c.row.id) before.jobs c.row c.found (==_refl c.row.id) in
    (
      mark_running now k,
      subst (λ i. find_job i after.jobs ≡ some (mark_running now k)) (sym same)
          (rw c.written (
            first-update (λ i. i.id == c.row.id) (mark_running now)
              (λ i. unfold mark_running in refl) before.jobs
            ∙ ap (Option.map (mark_running now)) e)),
    )

run_job-Settled :
    (process : Process) (j row : ProcessingJob) (w : World)
    → ((n : ℕ) → w.env.fails n ≡ false)
    → (process j w).1.env ≡ w.env
    → find_job j.id (process j w).1.db.jobs ≡ find_job j.id w.db.jobs
    → find_job j.id w.db.jobs ≡ some row
    → (after : ProcessingJob) × (find_job j.id (run_job process j w).db.jobs ≡ some after)
      × Settled (process j w).0 after
unfolding run_job
run_job-Settled process j row w healthy same keeps e =
    settle-Settled j row (process j w).0 (process j w).1 (rw same (healthy (process j w).1.tick))
      (keeps ∙ e)

env-claim_next : (t : String) (w : World) → (claim_next t w).1.env ≡ w.env
unfolding claim_next
env-claim_next t w = ground arith

-- When no statement fails and the worker leaves the row of its own job alone, a claimed job ends as
-- completed if `Process` returned nil, and as failed with the message of its error otherwise.
pub try_process-Settled :
    (process : Process) (t : String) (w : World) (j : ProcessingJob)
    → ((n : ℕ) → w.env.fails n ≡ false)
    → (process j (claim_next t w).1).1.env ≡ w.env
    → find_job j.id (process j (claim_next t w).1).1.db.jobs
      ≡ find_job j.id (claim_next t w).1.db.jobs
    → (claim_next t w).0 ≡ ok (some j)
    → (after : ProcessingJob) × (find_job j.id (try_process process t w).db.jobs ≡ some after)
      × Settled (process j (claim_next t w).1).0 after
unfolding try_process
try_process-Settled process t w j healthy same keeps c =
    let (row, e) = row_of_claim t j (claim_next-Claimed t w j c) in
    rw (c, try_process)
      (run_job-Settled process j row (claim_next t w).1 (λ n. rw (env-claim_next t w) (healthy n))
        (same ∙ sym (env-claim_next t w)) keeps e)
