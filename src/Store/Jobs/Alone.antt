-- ===== src/Store/Jobs/Alone.antt =====
-- `ClaimNext` of internal/store/job.go with nothing between its UPDATE and its COMMIT.
use creel.Store.World.{World}
