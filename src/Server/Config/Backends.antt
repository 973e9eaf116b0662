-- ===== src/Server/Config/Backends.antt =====
-- internal/server/config.go: the methods for vector backends.
use creel.Base.{String, Bool, List, Option, none, some, is_empty, map, if◌then◌else◌}
use creel.Exec.{◌>>◌}
use creel.Store.Rows.{Principal, Metadata, str}
use creel.Store.ConfigRows.{VectorBackendConfig, Parameters}
use creel.Store.Configs.Backends as Store
use creel.Server.Status.{Handler, or_internal, or_not_found}
use creel.Server.Config.{require_system, wants}

-- stringMapToAnyMap.
unfoldable pub string_map_to_any_map : Parameters → Metadata
string_map_to_any_map = map (λ e. (e.0, str e.1))

unfoldable pub create :
    Option Principal → String → String → Parameters → Bool → Handler VectorBackendConfig
unfolding require_system Store.create
create p name backend config is_default = do
  require_system p
  wants name
  wants backend
  or_internal (Store.create name backend (string_map_to_any_map config) is_default)

unfoldable pub get : Option Principal → String → Handler VectorBackendConfig
unfolding require_system Store.get
get p id = do require_system p; wants id; or_not_found (Store.get id)

unfoldable pub list : Option Principal → Handler (List VectorBackendConfig)
unfolding require_system Store.list
list p = do require_system p; or_internal Store.list

unfoldable pub update_config :
    Option Principal → String → String → Parameters → Handler VectorBackendConfig
unfolding require_system Store.update_config
update_config p id name config = do
  require_system p
  wants id
  or_internal (
      Store.update_config id name
        (if is_empty config then none else some (string_map_to_any_map config)))

unfoldable pub delete : Option Principal → String → Handler (Unit {0})
unfolding require_system Store.delete
delete p id = do require_system p; wants id; or_internal (Store.delete id)

unfoldable pub set_default : Option Principal → String → Handler VectorBackendConfig
unfolding require_system Store.set_default
set_default p id = do require_system p; wants id; or_internal (Store.set_default id)
