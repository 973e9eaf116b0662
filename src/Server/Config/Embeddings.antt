-- ===== src/Server/Config/Embeddings.antt =====
-- internal/server/config.go: the methods for embedding configurations.
use creel.Base.{ℕ, ℤ, pos, negsuc, String, Bool, List, Option, ltb}
use creel.Exec.{guard, ◌>>◌}
use creel.Store.Rows.{Principal}
use creel.Store.ConfigRows.{EmbeddingConfig}
use creel.Store.Configs.Embeddings as Store
use creel.Server.Status.{Handler, or_internal, or_not_found, invalid_argument}
use creel.Server.Config.{require_system, wants}

-- The number that `dimensions <= 0` lets through; 0 stands for those that it does not.
abbrev positive : ℤ → ℕ
positive (pos n) = n
positive (negsuc n) = 0

unfoldable pub create :
    Option Principal → String → String → String → ℤ → String → Bool → Handler EmbeddingConfig
unfolding require_system Store.create
create p name provider model dimensions api_key_config_id is_default = do
  require_system p
  wants name
  wants provider
  wants model
  guard (ltb 0 (positive dimensions)) invalid_argument
  wants api_key_config_id
  or_internal (Store.create name provider model (positive dimensions) api_key_config_id is_default)

unfoldable pub get : Option Principal → String → Handler EmbeddingConfig
unfolding require_system Store.get
get p id = do require_system p; wants id; or_not_found (Store.get id)

unfoldable pub list : Option Principal → Handler (List EmbeddingConfig)
unfolding require_system Store.list
list p = do require_system p; or_internal Store.list

unfoldable pub update_config : Option Principal → String → String → String → Handler EmbeddingConfig
unfolding require_system Store.update_config
update_config p id name api_key_config_id = do
  require_system p
  wants id
  or_internal (Store.update_config id name api_key_config_id)

unfoldable pub delete : Option Principal → String → Handler (Unit {0})
unfolding require_system Store.delete
delete p id = do require_system p; wants id; or_internal (Store.delete id)

unfoldable pub set_default : Option Principal → String → Handler EmbeddingConfig
unfolding require_system Store.set_default
set_default p id = do require_system p; wants id; or_internal (Store.set_default id)
