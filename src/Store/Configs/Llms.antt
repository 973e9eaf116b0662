-- ===== src/Store/Configs/Llms.antt =====
-- internal/store/llm_config.go: the table of LLM configurations.
use creel.Base.{ℕ, String, Bool, false, List, Option, none, some, ◌==◌, exists, update}
use creel.Exec.{Exec}
use creel.Store.Rows.{Topic}
use creel.Store.ConfigRows.{LlmConfig, Parameters}
use creel.Store.World.{World, Db, Error}
use creel.Store.Configs
use creel.Store.Configs.{Table, or_old}

unfoldable pub touch : ℕ → LlmConfig → LlmConfig
touch now c = record c { updated_at = now }

unfoldable pub set_is_default : Bool → LlmConfig → LlmConfig
set_is_default b c = record c { is_default = b }

-- ON DELETE SET NULL in the topics.
abbrev is_bound : String → Topic → Bool
is_bound id t = elim t.llm_config_id [ none ↦ false | some c ↦ c == id ]

unfoldable pub unbind : Topic → Topic
unbind t = record t { llm_config_id = none }

abbrev release : String → Db → Option Db
release id db = some (record db { topics = update (is_bound id) unbind db.topics })

abbrev pub table : Table LlmConfig
table = record {
  rows = λ db. db.llm_configs;
  set_rows = λ rs db. record db { llm_configs = rs };
  id = λ c. c.id;
  name = λ c. c.name;
  is_default = λ c. c.is_default;
  created_at = λ c. c.created_at;
  set_is_default = set_is_default;
  touch = touch;
  has_references = λ db c. exists (λ k. k.id == c.api_key_config_id) db.api_key_configs;
  release = release;
}

abbrev pub new_row : String → String → String → Parameters → String → Bool → World → LlmConfig
new_row name provider model parameters api_key_config_id is_default w = record {
  id = w.env.new_id w.tick;
  name = name;
  provider = provider;
  model = model;
  parameters = parameters;
  api_key_config_id = api_key_config_id;
  is_default = is_default;
  created_at = w.env.now w.tick;
  updated_at = w.env.now w.tick;
}

-- LLMConfigStore.Create; no parameters are stored as the empty object.
unfoldable pub create :
    String → String → String → Parameters → String → Bool → Exec World Error LlmConfig
unfolding Configs.create_row
create name provider model parameters api_key_config_id is_default =
    Configs.create_row table "inserting LLM config" is_default
      (new_row name provider model parameters api_key_config_id is_default)

-- LLMConfigStore.Get.
unfoldable pub get : String → Exec World Error LlmConfig
unfolding Configs.get_row
get = Configs.get_row table "querying LLM config" "LLM config not found"

-- LLMConfigStore.List.
unfoldable pub list : Exec World Error (List LlmConfig)
unfolding Configs.list_rows
list = Configs.list_rows table "listing LLM configs"

abbrev or_old_parameters : Option Parameters → Parameters → Parameters
or_old_parameters none old = old
or_old_parameters (some p) old = p

unfoldable pub set_columns :
    String → String → String → Option Parameters → String → LlmConfig → LlmConfig
set_columns name provider model parameters api_key_config_id c = record c {
  name = or_old name c.name;
  provider = or_old provider c.provider;
  model = or_old model c.model;
  parameters = or_old_parameters parameters c.parameters;
  api_key_config_id = or_old api_key_config_id c.api_key_config_id;
}

-- LLMConfigStore.Update.
unfoldable pub update_config :
    String → String → String → String → Option Parameters → String → Exec World Error LlmConfig
unfolding Configs.update_row set_columns touch
update_config id name provider model parameters api_key_config_id =
    Configs.update_row table "updating LLM config" "LLM config not found" id
      (set_columns name provider model parameters api_key_config_id)

-- LLMConfigStore.Delete.
unfoldable pub delete : String → Exec World Error (Unit {0})
unfolding Configs.delete_row
delete = Configs.delete_row table "deleting LLM config" "LLM config not found"

-- LLMConfigStore.SetDefault.
unfoldable pub set_default : String → Exec World Error LlmConfig
unfolding Configs.set_default_row set_is_default touch
set_default = Configs.set_default_row table "setting default LLM config" "LLM config not found"

-- LLMConfigStore.GetDefault.
unfoldable pub get_default : Exec World Error (Option LlmConfig)
unfolding Configs.get_default_row
get_default = Configs.get_default_row table "querying default LLM config"
