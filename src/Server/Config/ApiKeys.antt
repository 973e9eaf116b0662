-- ===== src/Server/Config/ApiKeys.antt =====
-- internal/server/config.go: the methods for API keys.
use creel.Base.{ℕ, String, Bool, List, Option, none, some, not, is_empty, if◌then◌else◌}
use creel.Exec.{guard, ◌>>◌}
use creel.Store.Rows.{Principal}
use creel.Store.ConfigRows.{ApiKeyConfig}
use creel.Store.Configs.ApiKeys as Store
use creel.Store.Configs.ApiKeys.{Encryptor}
use creel.Server.Status.{Handler, or_internal, or_not_found, invalid_argument}
use creel.Server.Config.{require_system, wants}

unfoldable pub create :
    Option Encryptor → Option Principal → String → String → List ℕ → Bool → Handler ApiKeyConfig
unfolding require_system Store.create
create enc p name provider api_key is_default = do
  require_system p
  wants name
  wants provider
  guard (not (is_empty api_key)) invalid_argument
  or_internal (Store.create enc name provider api_key is_default)

unfoldable pub get : Option Principal → String → Handler ApiKeyConfig
unfolding require_system Store.get
get p id = do require_system p; wants id; or_not_found (Store.get id)

unfoldable pub list : Option Principal → Handler (List ApiKeyConfig)
unfolding require_system Store.list
list p = do require_system p; or_internal Store.list

unfoldable pub update_config :
    Option Encryptor → Option Principal → String → String → String → List ℕ → Handler ApiKeyConfig
unfolding require_system Store.update_config
update_config enc p id name provider api_key = do
  require_system p
  wants id
  or_internal
      (Store.update_config enc id name provider (if is_empty api_key then none else some api_key))

unfoldable pub delete : Option Principal → String → Handler (Unit {0})
unfolding require_system Store.delete
delete p id = do require_system p; wants id; or_internal (Store.delete id)

unfoldable pub set_default : Option Principal → String → Handler ApiKeyConfig
unfolding require_system Store.set_default
set_default p id = do require_system p; wants id; or_internal (Store.set_default id)
