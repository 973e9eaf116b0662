-- ===== src/Server/Admin.antt =====
-- internal/server/admin.go: the AdminService. No method looks at the caller: the interceptor has seen
-- to it that there is one. `ping` is whether the pool answers.
use creel.Base.{ℕ, ◌*◌, ℤ, pos, negsuc, String, Bool, List, not, ◌==◌, if◌then◌else◌, suc, ◌-◌}
use creel.Exec.{guard, pure, ◌>>◌}
use creel.Store.Rows.{SystemAccount}
use creel.Store.Accounts
use creel.Store.Accounts.{NewKey}
use creel.Store.Stats.{EntityStats, get_stats}
use creel.Server.Status.{Handler, or_internal, invalid_argument}

-- The status text; the version is a constant of the build.
unfoldable pub health : Bool → Handler String
health ping = pure (if ping then "ok" else "unhealthy")

unfoldable pub create_system_account : NewKey → String → String → Handler (SystemAccount × String)
unfolding Accounts.create
create_system_account k name description = do
  guard (not (name == "")) invalid_argument
  or_internal (Accounts.create k name description)

unfoldable pub list_system_accounts : Handler (List SystemAccount)
unfolding Accounts.list
list_system_accounts = or_internal Accounts.list

unfoldable pub delete_system_account : String → Handler (Unit {0})
unfolding Accounts.delete
delete_system_account id = do
  guard (not (id == "")) invalid_argument
  or_internal (Accounts.delete id)

-- `time.Duration(seconds) * time.Second`: an int32 of seconds fits the int64 of nanoseconds.
unfoldable pub seconds : ℤ → ℤ
seconds (pos n) = pos (n * 1_000_000_000)
seconds (negsuc n) = negsuc (suc n * 1_000_000_000 - 1)

unfoldable pub rotate_key : ℕ → NewKey → String → ℤ → Handler String
unfolding Accounts.rotate_key seconds
rotate_key clock k account_id grace_period_seconds = do
  guard (not (account_id == "")) invalid_argument
  or_internal (Accounts.rotate_key clock k account_id (seconds grace_period_seconds))

unfoldable pub revoke_key : String → Handler (Unit {0})
unfolding Accounts.revoke_key
revoke_key account_id = do
  guard (not (account_id == "")) invalid_argument
  or_internal (Accounts.revoke_key account_id)

unfoldable pub stats : Handler EntityStats
unfolding get_stats
stats = or_internal get_stats
