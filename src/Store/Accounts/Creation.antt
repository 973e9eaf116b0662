-- ===== src/Store/Accounts/Creation.antt =====
-- A new system account and its first key (internal/store/system_account.go).
use creel.Store.World.{World}
