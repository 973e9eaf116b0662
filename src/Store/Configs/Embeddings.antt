-- ===== src/Store/Configs/Embeddings.antt =====
-- internal/store/embedding_config.go: the table of embedding configurations.
use creel.Base.{ℕ, String, Bool, false, List, Option, none, some, ◌==◌, exists, update}
use creel.Exec.{Exec}
use creel.Store.Rows.{Topic}
use creel.Store.ConfigRows.{EmbeddingConfig}
use creel.Store.World.{World, Db, Error}
use creel.Store.Configs
use creel.Store.Configs.{Table, or_old}

unfoldable pub touch : ℕ → EmbeddingConfig → EmbeddingConfig
touch now c = record c { updated_at = now }

unfoldable pub set_is_default : Bool → EmbeddingConfig → EmbeddingConfig
set_is_default b c = record c { is_default = b }

-- ON DELETE SET NULL in the topics.
abbrev is_bound : String → Topic → Bool
is_bound id t = elim t.embedding_config_id [ none ↦ false | some c ↦ c == id ]

unfoldable pub unbind : Topic → Topic
unbind t = record t { embedding_config_id = none }

abbrev release : String → Db → Option Db
release id db = some (record db { topics = update (is_bound id) unbind db.topics })

abbrev pub table : Table EmbeddingConfig
table = record {
  rows = λ db. db.embedding_configs;
  set_rows = λ rs db. record db { embedding_configs = rs };
  id = λ c. c.id;
  name = λ c. c.name;
  is_default = λ c. c.is_default;
  created_at = λ c. c.created_at;
  set_is_default = set_is_default;
  touch = touch;
  has_references = λ db c. exists (λ k. k.id == c.api_key_config_id) db.api_key_configs;
  release = release;
}

abbrev new_row : String → String → String → ℕ → String → Bool → World → EmbeddingConfig
new_row name provider model dimensions api_key_config_id is_default w = record {
  id = w.env.new_id w.tick;
  name = name;
  provider = provider;
  model = model;
  dimensions = dimensions;
  api_key_config_id = api_key_config_id;
  is_default = is_default;
  created_at = w.env.now w.tick;
  updated_at = w.env.now w.tick;
}

-- EmbeddingConfigStore.Create; the service has seen to it that the dimensions are positive.
unfoldable pub create :
    String → String → String → ℕ → String → Bool → Exec World Error EmbeddingConfig
unfolding Configs.create_row
create name provider model dimensions api_key_config_id is_default =
    Configs.create_row table "inserting embedding config" is_default
      (new_row name provider model dimensions api_key_config_id is_default)

-- EmbeddingConfigStore.Get.
unfoldable pub get : String → Exec World Error EmbeddingConfig
unfolding Configs.get_row
get = Configs.get_row table "querying embedding config" "embedding config not found"

-- EmbeddingConfigStore.List.
unfoldable pub list : Exec World Error (List EmbeddingConfig)
unfolding Configs.list_rows
list = Configs.list_rows table "listing embedding configs"

unfoldable pub set_columns : String → String → EmbeddingConfig → EmbeddingConfig
set_columns name api_key_config_id c = record c {
  name = or_old name c.name;
  api_key_config_id = or_old api_key_config_id c.api_key_config_id;
}

-- EmbeddingConfigStore.Update.
unfoldable pub update_config : String → String → String → Exec World Error EmbeddingConfig
unfolding Configs.update_row set_columns touch
update_config id name api_key_config_id =
    Configs.update_row table "updating embedding config" "embedding config not found" id
      (set_columns name api_key_config_id)

-- EmbeddingConfigStore.Delete.
unfoldable pub delete : String → Exec World Error (Unit {0})
unfolding Configs.delete_row
delete = Configs.delete_row table "deleting embedding config" "embedding config not found"

-- EmbeddingConfigStore.SetDefault.
unfoldable pub set_default : String → Exec World Error EmbeddingConfig
unfolding Configs.set_default_row set_is_default touch
set_default =
    Configs.set_default_row table "setting default embedding config" "embedding config not found"

-- EmbeddingConfigStore.GetDefault.
unfoldable pub get_default : Exec World Error (Option EmbeddingConfig)
unfolding Configs.get_default_row
get_default = Configs.get_default_row table "querying default embedding config"
