-- ===== src/Store/Configs/ApiKeys.antt =====
-- internal/store/api_key_config.go: the table of API keys of providers; encryption is a
-- parameter.
use creel.Base.{ℕ, String, Bool, true, List, Option, none, some, ◌==◌, ◌||◌, exists, if◌then◌else◌}
use creel.Exec.{Exec, Result, ok, err}
use creel.Store.ConfigRows.{ApiKeyConfig}
use creel.Store.World.{World, Db, Error, statement}
use creel.Store.Configs
use creel.Store.Configs.{Table, or_old}

unfoldable pub touch : ℕ → ApiKeyConfig → ApiKeyConfig
touch now c = record c { updated_at = now }

unfoldable pub set_is_default : Bool → ApiKeyConfig → ApiKeyConfig
set_is_default b c = record c { is_default = b }

-- Rows that reference a key keep it from being deleted.
abbrev release : String → Db → Option Db
release id db =
    if exists (λ c. c.api_key_config_id == id) db.llm_configs
      || exists (λ c. c.api_key_config_id == id) db.embedding_configs
    then none
    else some db

abbrev pub table : Table ApiKeyConfig
table = record {
  rows = λ db. db.api_key_configs;
  set_rows = λ rs db. record db { api_key_configs = rs };
  id = λ c. c.id;
  name = λ c. c.name;
  is_default = λ c. c.is_default;
  created_at = λ c. c.created_at;
  set_is_default = set_is_default;
  touch = touch;
  has_references = λ db c. true;
  release = release;
}

-- crypto.Encryptor, or nil: a ciphertext and a nonce for the n-th statement to come.
pub record Encryptor : Type 0 where
  pub encrypt : ℕ → List ℕ → List ℕ × List ℕ
  pub decrypt : List ℕ → List ℕ → Option (List ℕ)

abbrev pub no_key : Error
no_key = "encryption key not configured; set encryption_key in config"

abbrev pub new_row : String → String → List ℕ × List ℕ → Bool → World → ApiKeyConfig
new_row name provider sealed is_default w = record {
  id = w.env.new_id w.tick;
  name = name;
  provider = provider;
  encrypted_key = sealed.0;
  key_nonce = sealed.1;
  is_default = is_default;
  created_at = w.env.now w.tick;
  updated_at = w.env.now w.tick;
}

-- APIKeyConfigStore.Create.
unfoldable pub create :
    Option Encryptor → String → String → List ℕ → Bool → Exec World Error ApiKeyConfig
unfolding Configs.create_row
create none name provider api_key is_default w = (err no_key, w)
create (some e) name provider api_key is_default w =
    Configs.create_row table "inserting API key config" is_default
      (new_row name provider (e.encrypt w.tick api_key) is_default) w

-- APIKeyConfigStore.Get.
unfoldable pub get : String → Exec World Error ApiKeyConfig
unfolding Configs.get_row
get = Configs.get_row table "querying API key config" "API key config not found"

-- APIKeyConfigStore.List.
unfoldable pub list : Exec World Error (List ApiKeyConfig)
unfolding Configs.list_rows
list = Configs.list_rows table "listing API key configs"

unfoldable pub rename : String → String → ApiKeyConfig → ApiKeyConfig
rename name provider c = record c {
  name = or_old name c.name;
  provider = or_old provider c.provider;
}

unfoldable pub seal : List ℕ × List ℕ → ApiKeyConfig → ApiKeyConfig
seal sealed c = record c { encrypted_key = sealed.0; key_nonce = sealed.1 }

-- APIKeyConfigStore.Update: without a new key the old one stays.
unfoldable pub update_config :
    Option Encryptor → String → String → String → Option (List ℕ) → Exec World Error ApiKeyConfig
unfolding Configs.update_row rename seal touch
update_config enc id name provider none w =
    Configs.update_row table "updating API key config" "API key config not found" id
      (rename name provider) w
update_config none id name provider (some api_key) w = (err no_key, w)
update_config (some e) id name provider (some api_key) w =
    Configs.update_row table "updating API key config" "API key config not found" id
      (λ c. seal (e.encrypt w.tick api_key) (rename name provider c)) w

-- APIKeyConfigStore.Delete.
unfoldable pub delete : String → Exec World Error (Unit {0})
unfolding Configs.delete_row
delete = Configs.delete_row table "deleting API key config" "API key config not found"

-- APIKeyConfigStore.SetDefault.
unfoldable pub set_default : String → Exec World Error ApiKeyConfig
unfolding Configs.set_default_row set_is_default touch
set_default =
    Configs.set_default_row table "setting default API key config" "API key config not found"

abbrev decrypted : Option Encryptor → ApiKeyConfig → Result Error (List ℕ)
decrypted none c = err no_key
decrypted (some e) c = elim (e.decrypt c.encrypted_key c.key_nonce) [
  | none ↦ err "decrypting API key"
  | some key ↦ ok key
]

abbrev decrypted_row : Option Encryptor → Option ApiKeyConfig → Result Error (List ℕ)
decrypted_row enc none = err "API key config not found"
decrypted_row enc (some c) = decrypted enc c

-- APIKeyConfigStore.GetDecrypted.
unfoldable pub get_decrypted : Option Encryptor → String → Exec World Error (List ℕ)
unfolding statement
get_decrypted enc id =
    statement "querying encrypted key"
      λ w. (decrypted_row enc (Configs.find_row table id w.db), w.db)
