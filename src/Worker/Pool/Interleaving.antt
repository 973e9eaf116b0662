-- ===== src/Worker/Pool/Interleaving.antt =====
-- Many poll loops of internal/worker/pool.go over one job table, as interleavings of statements. A claim
-- is two steps, its UPDATE and its COMMIT, between which all others may come.
mod Queue
use creel.Base.{
  ℕ, String, Bool, true, false, List, [], ◌∷◌, ◌≡◌, none, some, Memᴰ, contains, Distinct, map, not,
  select, update, update-Memᴰ, append-Memᴰ, ◌==◌, ◌&&◌, ◌++◌, if◌then◌else◌,
}
use creel.Exec.{Result, ok, err}
use creel.Store.Rows.{ProcessingJob, JobStatus}
use creel.Store.World.{World, Db, Error}
use creel.Store.Jobs.{is_queued, set_status, update_status}
use creel.Store.Jobs.Locks.{reserve, publish}
use creel.Store.Jobs.Writes.{NewJob, create_job, jobs-update_status, jobs-create_job}
use creel.Worker.Pool.{settle}
use creel.Worker.Pool.Interleaving.Queue.{NotQueued}

-- The database; the new versions of the rows that open transactions have locked; and the IDs of all
-- jobs whose claim was committed so far. The newest come first.
pub record System : Type 0 where
  pub world : World
  pub held : List ProcessingJob
  pub claimed : List String

abbrev pub jobs : System → List ProcessingJob
jobs s = s.world.db.jobs

abbrev pub ids : List ProcessingJob → List String
ids = map (λ j. j.id)

-- The other transactions.
abbrev pub without : ProcessingJob → List ProcessingJob → List ProcessingJob
without j = select (λ k. not (k.id == j.id))

-- One step of some goroutine or client.
pub data Step (s : System) : System → Type 0 where
  -- The UPDATE of a claim.
  reserves :
      (job_type : String) (j : ProcessingJob)
      → reserve (ids s.held) job_type s.world ≡ ok (some j)
      → Step s (record s { held = j ∷ s.held })
  -- The COMMIT of a claim, after which the worker has the job.
  commits :
      (j : ProcessingJob)
      → Memᴰ j s.held
      → Step s (record {
        world = record s.world { db = publish j s.world.db };
        held = without j s.held;
        claimed = j.id ∷ s.claimed;
      })
  -- The ROLLBACK of a claim.
  rolls_back : (j : ProcessingJob) → Step s (record s { held = without j s.held })
  -- A worker that has a job has finished, with either outcome.
  settles :
      (j : ProcessingJob) (r : Result Error (Unit {0}))
      → contains s.claimed j.id ≡ true
      → Step s (record s { world = settle j r s.world })
  -- A new job of any kind, under an ID that no claimed job had.
  creates :
      (n : NewJob)
      → contains s.claimed (s.world.env.new_id s.world.tick) ≡ false
      → Step s (record s { world = create_job n s.world })
  -- Any other statement: it leaves the jobs alone, or deletes some with their document.
  others :
      (w : World) (kept : ProcessingJob → Bool)
      → w.db.jobs ≡ select kept (jobs s)
      → Step s (record s { world = w })

pub data Reach (s : System) : System → Type 0 where
  here : Reach s s
  next : {t u : System} → Reach s t → Step t u → Reach s u

-- Claimed jobs are distinct, and none is queued; locked rows are distinct, their new versions are not
-- queued, and none is claimed.
record Exclusive (s : System) : Type 0 where
  pub distinct : Distinct s.claimed
  pub not_queued : NotQueued s.claimed (jobs s)
  pub locks : Distinct (ids s.held)
  pub running : (j : ProcessingJob) → Memᴰ j s.held → is_queued j.status ≡ false
  pub unclaimed : (j : ProcessingJob) → Memᴰ j s.held → contains s.claimed j.id ≡ false

-- A row that an UPDATE has locked was in the table, queued, and not locked by another transaction.
record Reserved (locked : List String) (s : System) (j : ProcessingJob) : Type 0 where
  pub row : ProcessingJob
  pub found : Memᴰ row (jobs s)
  pub was_queued : is_queued row.status ≡ true
  pub was_unlocked : contains locked row.id ≡ false
  pub same_id : j.id ≡ row.id
  pub is_running : is_queued j.status ≡ false

-- Before any claim.
abbrev pub started : World → System
started w = record { world = w; held = []; claimed = [] }
