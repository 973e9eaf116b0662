-- ===== src/Server/Config/Prompts.antt =====
-- internal/server/config.go: the methods for extraction prompts.
use creel.Base.{String, Bool, List, Option}
use creel.Exec.{◌>>◌}
use creel.Store.Rows.{Principal}
use creel.Store.ConfigRows.{ExtractionPromptConfig}
use creel.Store.Configs.Prompts as Store
use creel.Server.Status.{Handler, or_internal, or_not_found}
use creel.Server.Config.{require_system, wants}

unfoldable pub create :
    Option Principal → String → String → String → Bool → Handler ExtractionPromptConfig
unfolding require_system Store.create
create p name prompt description is_default = do
  require_system p
  wants name
  wants prompt
  or_internal (Store.create name prompt description is_default)

unfoldable pub get : Option Principal → String → Handler ExtractionPromptConfig
unfolding require_system Store.get
get p id = do require_system p; wants id; or_not_found (Store.get id)

unfoldable pub list : Option Principal → Handler (List ExtractionPromptConfig)
unfolding require_system Store.list
list p = do require_system p; or_internal Store.list

unfoldable pub update_config :
    Option Principal → String → String → String → String → Handler ExtractionPromptConfig
unfolding require_system Store.update_config
update_config p id name prompt description = do
  require_system p
  wants id
  or_internal (Store.update_config id name prompt description)

unfoldable pub delete : Option Principal → String → Handler (Unit {0})
unfolding require_system Store.delete
delete p id = do require_system p; wants id; or_internal (Store.delete id)

unfoldable pub set_default : Option Principal → String → Handler ExtractionPromptConfig
unfolding require_system Store.set_default
set_default p id = do require_system p; wants id; or_internal (Store.set_default id)
