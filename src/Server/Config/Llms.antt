-- ===== src/Server/Config/Llms.antt =====
-- internal/server/config.go: the methods for LLM configurations.
use creel.Base.{String, Bool, List, Option, none, some, is_empty, if◌then◌else◌}
use creel.Exec.{◌>>◌}
use creel.Store.Rows.{Principal}
use creel.Store.ConfigRows.{LlmConfig, Parameters}
use creel.Store.Configs.Llms as Store
use creel.Server.Status.{Handler, or_internal, or_not_found}
use creel.Server.Config.{require_system, wants}

unfoldable pub create :
    Option Principal → String → String → String → Parameters → String → Bool → Handler LlmConfig
unfolding require_system Store.create
create p name provider model parameters api_key_config_id is_default = do
  require_system p
  wants name
  wants provider
  wants model
  wants api_key_config_id
  or_internal (Store.create name provider model parameters api_key_config_id is_default)

unfoldable pub get : Option Principal → String → Handler LlmConfig
unfolding require_system Store.get
get p id = do require_system p; wants id; or_not_found (Store.get id)

unfoldable pub list : Option Principal → Handler (List LlmConfig)
unfolding require_system Store.list
list p = do require_system p; or_internal Store.list

unfoldable pub update_config :
    Option Principal → String → String → String → String → Parameters → String → Handler LlmConfig
unfolding require_system Store.update_config
update_config p id name provider model parameters api_key_config_id = do
  require_system p
  wants id
  or_internal (
      Store.update_config id name provider model
        (if is_empty parameters then none else some parameters) api_key_config_id)

unfoldable pub delete : Option Principal → String → Handler (Unit {0})
unfolding require_system Store.delete
delete p id = do require_system p; wants id; or_internal (Store.delete id)

unfoldable pub set_default : Option Principal → String → Handler LlmConfig
unfolding require_system Store.set_default
set_default p id = do require_system p; wants id; or_internal (Store.set_default id)
