-- ===== src/Store/Configs/Backends.antt =====
-- internal/store/vector_backend_config.go: the table of vector backends.
use creel.Base.{ℕ, String, Bool, true, false, List, Option, none, some, ◌==◌, update}
use creel.Exec.{Exec}
use creel.Store.Rows.{Metadata, Topic}
use creel.Store.ConfigRows.{VectorBackendConfig}
use creel.Store.World.{World, Db, Error}
use creel.Store.Configs
use creel.Store.Configs.{Table, or_old}

unfoldable pub touch : ℕ → VectorBackendConfig → VectorBackendConfig
touch now c = record c { updated_at = now }

unfoldable pub set_is_default : Bool → VectorBackendConfig → VectorBackendConfig
set_is_default b c = record c { is_default = b }

-- ON DELETE SET NULL in the topics.
abbrev is_bound : String → Topic → Bool
is_bound id t = elim t.vector_backend_config_id [ none ↦ false | some c ↦ c == id ]

unfoldable pub unbind : Topic → Topic
unbind t = record t { vector_backend_config_id = none }

abbrev release : String → Db → Option Db
release id db = some (record db { topics = update (is_bound id) unbind db.topics })

abbrev pub table : Table VectorBackendConfig
table = record {
  rows = λ db. db.vector_backend_configs;
  set_rows = λ rs db. record db { vector_backend_configs = rs };
  id = λ c. c.id;
  name = λ c. c.name;
  is_default = λ c. c.is_default;
  created_at = λ c. c.created_at;
  set_is_default = set_is_default;
  touch = touch;
  has_references = λ db c. true;
  release = release;
}

abbrev new_row : String → String → Metadata → Bool → World → VectorBackendConfig
new_row name backend config is_default w = record {
  id = w.env.new_id w.tick;
  name = name;
  backend = backend;
  config = config;
  is_default = is_default;
  created_at = w.env.now w.tick;
  updated_at = w.env.now w.tick;
}

-- VectorBackendConfigStore.Create.
unfoldable pub create : String → String → Metadata → Bool → Exec World Error VectorBackendConfig
unfolding Configs.create_row
create name backend config is_default =
    Configs.create_row table "inserting vector backend config" is_default
      (new_row name backend config is_default)

-- VectorBackendConfigStore.Get.
unfoldable pub get : String → Exec World Error VectorBackendConfig
unfolding Configs.get_row
get = Configs.get_row table "querying vector backend config" "vector backend config not found"

-- VectorBackendConfigStore.List.
unfoldable pub list : Exec World Error (List VectorBackendConfig)
unfolding Configs.list_rows
list = Configs.list_rows table "listing vector backend configs"

abbrev or_old_config : Option Metadata → Metadata → Metadata
or_old_config none old = old
or_old_config (some m) old = m

unfoldable pub set_columns : String → Option Metadata → VectorBackendConfig → VectorBackendConfig
set_columns name config c = record c {
  name = or_old name c.name;
  config = or_old_config config c.config;
}

-- VectorBackendConfigStore.Update.
unfoldable pub update_config :
    String → String → Option Metadata → Exec World Error VectorBackendConfig
unfolding Configs.update_row set_columns touch
update_config id name config =
    Configs.update_row table "updating vector backend config" "vector backend config not found" id
      (set_columns name config)

-- VectorBackendConfigStore.Delete.
unfoldable pub delete : String → Exec World Error (Unit {0})
unfolding Configs.delete_row
delete = Configs.delete_row table "deleting vector backend config" "vector backend config not found"

-- VectorBackendConfigStore.SetDefault.
unfoldable pub set_default : String → Exec World Error VectorBackendConfig
unfolding Configs.set_default_row set_is_default touch
set_default =
    Configs.set_default_row table "setting default vector backend config"
      "vector backend config not found"

-- VectorBackendConfigStore.GetDefault.
unfoldable pub get_default : Exec World Error (Option VectorBackendConfig)
unfolding Configs.get_default_row
get_default = Configs.get_default_row table "querying default vector backend config"
