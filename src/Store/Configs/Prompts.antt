-- ===== src/Store/Configs/Prompts.antt =====
-- internal/store/extraction_prompt_config.go: the table of extraction prompts.
use creel.Base.{ℕ, String, Bool, true, false, List, Option, none, some, ◌==◌, update}
use creel.Exec.{Exec}
use creel.Store.Rows.{Topic}
use creel.Store.ConfigRows.{ExtractionPromptConfig}
use creel.Store.World.{World, Db, Error}
use creel.Store.Configs
use creel.Store.Configs.{Table, or_old}

unfoldable pub touch : ℕ → ExtractionPromptConfig → ExtractionPromptConfig
touch now c = record c { updated_at = now }

unfoldable pub set_is_default : Bool → ExtractionPromptConfig → ExtractionPromptConfig
set_is_default b c = record c { is_default = b }

-- ON DELETE SET NULL in the topics.
abbrev is_bound : String → Topic → Bool
is_bound id t = elim t.extraction_prompt_config_id [ none ↦ false | some c ↦ c == id ]

unfoldable pub unbind : Topic → Topic
unbind t = record t { extraction_prompt_config_id = none }

abbrev release : String → Db → Option Db
release id db = some (record db { topics = update (is_bound id) unbind db.topics })

abbrev pub table : Table ExtractionPromptConfig
table = record {
  rows = λ db. db.extraction_prompt_configs;
  set_rows = λ rs db. record db { extraction_prompt_configs = rs };
  id = λ c. c.id;
  name = λ c. c.name;
  is_default = λ c. c.is_default;
  created_at = λ c. c.created_at;
  set_is_default = set_is_default;
  touch = touch;
  has_references = λ db c. true;
  release = release;
}

abbrev new_row : String → String → String → Bool → World → ExtractionPromptConfig
new_row name prompt description is_default w = record {
  id = w.env.new_id w.tick;
  name = name;
  prompt = prompt;
  description = description;
  is_default = is_default;
  created_at = w.env.now w.tick;
  updated_at = w.env.now w.tick;
}

-- ExtractionPromptConfigStore.Create.
unfoldable pub create : String → String → String → Bool → Exec World Error ExtractionPromptConfig
unfolding Configs.create_row
create name prompt description is_default =
    Configs.create_row table "inserting extraction prompt config" is_default
      (new_row name prompt description is_default)

-- ExtractionPromptConfigStore.Get.
unfoldable pub get : String → Exec World Error ExtractionPromptConfig
unfolding Configs.get_row
get = Configs.get_row table "querying extraction prompt config" "extraction prompt config not found"

-- ExtractionPromptConfigStore.List.
unfoldable pub list : Exec World Error (List ExtractionPromptConfig)
unfolding Configs.list_rows
list = Configs.list_rows table "listing extraction prompt configs"

unfoldable pub set_columns :
    String → String → String → ExtractionPromptConfig → ExtractionPromptConfig
set_columns name prompt description c = record c {
  name = or_old name c.name;
  prompt = or_old prompt c.prompt;
  description = or_old description c.description;
}

-- ExtractionPromptConfigStore.Update.
unfoldable pub update_config :
    String → String → String → String → Exec World Error ExtractionPromptConfig
unfolding Configs.update_row set_columns touch
update_config id name prompt description =
    Configs.update_row table "updating extraction prompt config"
      "extraction prompt config not found" id (set_columns name prompt description)

-- ExtractionPromptConfigStore.Delete.
unfoldable pub delete : String → Exec World Error (Unit {0})
unfolding Configs.delete_row
delete =
    Configs.delete_row table "deleting extraction prompt config"
      "extraction prompt config not found"

-- ExtractionPromptConfigStore.SetDefault.
unfoldable pub set_default : String → Exec World Error ExtractionPromptConfig
unfolding Configs.set_default_row set_is_default touch
set_default =
    Configs.set_default_row table "setting default extraction prompt config"
      "extraction prompt config not found"

-- ExtractionPromptConfigStore.GetDefault.
unfoldable pub get_default : Exec World Error (Option ExtractionPromptConfig)
unfolding Configs.get_default_row
get_default = Configs.get_default_row table "querying default extraction prompt config"
