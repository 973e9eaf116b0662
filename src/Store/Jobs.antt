-- ===== src/Store/Jobs.antt =====
-- internal/store/job.go: the table of background jobs.
pub mod Locks
pub mod Alone
pub mod Claim
pub mod Writes
pub mod Listing
use creel.Base.{
  ℕ, String, Bool, true, false, List, [], ◌∷◌, ◌++◌, ◌&&◌, Option, none, some, leb, ◌==◌, select,
  first, exists, update, if◌then◌else◌,
}
use creel.Exec.{Exec, Result, ok, err, pure, ◌>>=◌, ◌>>◌}
use creel.Store.Rows.{ProcessingJob, JobStatus, Metadata, Document, queued, running, completed}
use creel.Store.World.{World, Db, Error, statement, row_or}

abbrev pub is_queued : JobStatus → Bool
is_queued queued = true
is_queued _ = false

abbrev is_running : JobStatus → Bool
is_running running = true
is_running _ = false

abbrev is_final : JobStatus → Bool
is_final completed = true
is_final JobStatus.failed = true
is_final _ = false

-- The column's text.
abbrev pub status_text : JobStatus → String
status_text queued = "queued"
status_text running = "running"
status_text completed = "completed"
status_text JobStatus.failed = "failed"

-- The row that an INSERT makes from its columns and the defaults of the table.
abbrev pub new_job : World → String → String → Metadata → ProcessingJob
new_job w document_id job_type progress = record {
  id = w.env.new_id w.tick;
  document_id = document_id;
  job_type = job_type;
  status = queued;
  progress = progress;
  error = none;
  started_at = none;
  completed_at = none;
  created_at = w.env.now w.tick;
}

abbrev pub insert_job : Error → (World → ProcessingJob) → World → Result Error ProcessingJob × Db
insert_job msg row w = (ok (row w), record w.db { jobs = w.db.jobs ++ row w ∷ [] })

-- A document's jobs reference it: the insert fails when the document is not there.
abbrev pub has_document : List Document → String → Bool
has_document ds id = exists (λ d. d.id == id) ds

unfoldable pub insert_document_job :
    Error → String → String → Metadata → Exec World Error ProcessingJob
unfolding statement
insert_document_job msg document_id job_type progress = statement msg λ w.
    if has_document w.db.documents document_id
    then insert_job msg (λ v. new_job v document_id job_type progress) w
    else (err msg, w.db)

-- JobStore.Create.
unfoldable pub create : String → String → Exec World Error ProcessingJob
unfolding insert_document_job
create document_id job_type = insert_document_job "inserting processing job" document_id job_type []

unfoldable pub create_with_progress : String → String → Metadata → Exec World Error ProcessingJob
unfolding insert_document_job
create_with_progress document_id job_type progress =
    insert_document_job "inserting processing job with progress" document_id job_type progress

unfoldable pub create_docless : String → Metadata → Exec World Error ProcessingJob
unfolding statement
create_docless job_type progress =
    statement "inserting docless processing job"
      (insert_job "" (λ v. new_job v "" job_type progress))

abbrev pub find_job : String → List ProcessingJob → Option ProcessingJob
find_job id = first (λ j. j.id == id)

-- JobStore.Get.
unfoldable pub get : String → Exec World Error ProcessingJob
unfolding statement
get id =
    statement "querying processing job" λ w. (row_or "job not found" (find_job id w.db.jobs), w.db)

-- The SET clause of `UpdateStatus`, with the columns that its branches add.
unfoldable pub set_status : JobStatus → Option String → ℕ → ProcessingJob → ProcessingJob
set_status status error_msg now j = record j {
  status = status;
  started_at = if is_running status then some now else j.started_at;
  completed_at = if is_final status then some now else j.completed_at;
  error = elim error_msg [ none ↦ j.error | some e ↦ some e ];
}

unfoldable pub update_status : String → JobStatus → Option String → Exec World Error (Unit {0})
unfolding statement set_status
update_status id status error_msg = statement "updating job status" λ w.
    if exists (λ j. j.id == id) w.db.jobs
    then (
      ok tt,
      record w.db {
        jobs = update (λ j. j.id == id) (set_status status error_msg (w.env.now w.tick)) w.db.jobs;
      },
    )
    else (err "job not found", w.db)

-- `WHERE status = 'queued' AND job_type = $1`.
abbrev pub claimable : String → ProcessingJob → Bool
claimable job_type j = is_queued j.status && j.job_type == job_type

-- `ORDER BY created_at LIMIT 1`; of rows created at one time, the first.
abbrev earlier : ProcessingJob → Option ProcessingJob → ProcessingJob
earlier j none = j
earlier j (some k) = if leb j.created_at k.created_at then j else k

unfoldable pub oldest : List ProcessingJob → Option ProcessingJob
oldest [] = none
oldest (j ∷ js) = some (earlier j (oldest js))

unfoldable pub mark_running : ℕ → ProcessingJob → ProcessingJob
mark_running now j = record j { status = running; started_at = some now }

-- The UPDATE of `ClaimNext` with its subquery; `RETURNING` gives the updated row.
unfoldable pub claim_row : String → Exec World Error (Option ProcessingJob)
unfolding statement mark_running
claim_row job_type = statement "claiming next job" λ w.
    elim (oldest (select (claimable job_type) w.db.jobs)) [
      | none ↦ (ok none, w.db)
      | some j ↦ (
        ok (some (mark_running (w.env.now w.tick) j)),
        record w.db {
          jobs = update (λ k. k.id == j.id) (mark_running (w.env.now w.tick)) w.db.jobs;
        },
      )
    ]

-- `tx.Begin` and `tx.Commit` are statements; `defer tx.Rollback` undoes what was not committed.
unfoldable pub begin : Exec World Error (Unit {0})
unfolding statement
begin = statement "beginning transaction" λ w. (ok tt, w.db)

unfoldable pub commit : Error → Exec World Error (Unit {0})
unfolding statement
commit msg = statement msg λ w. (ok tt, w.db)

abbrev restore : {A : Type 0} → Db → Result Error A × World → Result Error A × World
restore db (ok a, w) = (ok a, w)
restore db (err e, w) = (err e, record w { db = db })

unfoldable pub rollback_on_error : {A : Type 0} → Exec World Error A → Exec World Error A
rollback_on_error m w = restore w.db (m w)

abbrev commit_claim : Option ProcessingJob → Exec World Error (Option ProcessingJob)
commit_claim none = pure none
commit_claim (some j) = do commit "committing claim"; pure (some j)

-- JobStore.ClaimNext.
unfoldable pub claim_next : String → Exec World Error (Option ProcessingJob)
unfolding rollback_on_error begin commit claim_row
claim_next job_type = rollback_on_error (do begin; j ← claim_row job_type; commit_claim j)
