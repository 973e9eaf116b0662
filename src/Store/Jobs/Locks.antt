-- ===== src/Store/Jobs/Locks.antt =====
-- `ClaimNext` of internal/store/job.go between its UPDATE and its COMMIT: the row is locked, and other
-- connections still see it as it was.
use creel.Base.{String, List, Option, not, contains, select, update, ◌==◌}
use creel.Exec.{Result}
use creel.Store.Rows.{ProcessingJob}
use creel.Store.World.{World, Db, Error}
use creel.Store.Jobs.{claim_row}

-- FOR UPDATE SKIP LOCKED: the subquery passes over the rows that other transactions have locked.
unfoldable pub unlocked : List String → Db → Db
unlocked locked db = record db { jobs = select (λ j. not (contains locked j.id)) db.jobs }

-- What the UPDATE returns to its transaction: the new version of the row that it has locked.
unfoldable pub reserve : List String → String → World → Result Error (Option ProcessingJob)
unfolding unlocked claim_row
reserve locked job_type w = (claim_row job_type (record w { db = unlocked locked w.db })).0

-- The COMMIT: all connections see the new version.
unfoldable pub publish : ProcessingJob → Db → Db
publish j db = record db { jobs = update (λ k. k.id == j.id) (λ k. j) db.jobs }
