-- ===== src/Tests/Configs.antt =====
-- Tests and examples of the configurations.
use creel.Base.{◌≡◌, pos, String, true, false, [], string_dec, ◌∷◌, none, some, refl}
use creel.Store.World.{World}
use creel.Store.ConfigRows.{LlmConfig, ApiKeyConfig}
use creel.Store.Configs
use creel.Store.Configs.ApiKeys as ApiKeyStore
use creel.Store.Configs.Llms as LlmStore
use creel.Store.Configs.Laws.{llms-TableLaws}
use creel.Store.Configs.Replaced.{
  IsNewDefault, create_row-IsNewDefault, set_default_row-IsNewDefault,
}
use creel.Store.Configs.Choice.{Choice, cleared, set_default_row-Choice}
use creel.Exec.{ok}
use creel.Store.World.{statement}
use creel.Store.Jobs.{begin, commit, rollback_on_error}
use creel.Store.Configs.ApiKeys.{Encryptor}
use creel.Store.Configs.Sealed.{create-get_decrypted}
use creel.Server.Config.ApiKeys
use creel.Server.Config.Llms
use creel.Server.Config.Embeddings
use creel.Server.Config.Prompts
use creel.Server.Config.Backends
use creel.Server.Config.SystemOnly.{Methods, config-Methods}
use creel.Tests.Data.{alice, tables, world}

abbrev llm : String → LlmConfig
llm id = record {
  id = id;
  name = id;
  provider = "openai";
  model = "m";
  parameters = [];
  api_key_config_id = "k";
  is_default = false;
  created_at = 0;
  updated_at = 0;
}

abbrev configured : World
configured = record world { db = record tables { llm_configs = llm "l1" ∷ llm "l2" ∷ [] } }

set_default_row-Choice_example :
    Choice LlmStore.table llms-TableLaws "l2" configured.db
      (Configs.set_default_row LlmStore.table "setting default" "not found" "l2" configured)
set_default_row-Choice_example =
    set_default_row-Choice LlmStore.table llms-TableLaws "setting default" "not found" "l2"
      configured

-- l1 is the default, and there is a key.
abbrev with_default : World
unfolding LlmStore.set_is_default
with_default = record world {
  db = record tables {
    llm_configs = LlmStore.set_is_default true (llm "l1") ∷ llm "l2" ∷ [];
    api_key_configs =
        record {
          id = "k";
          name = "k";
          provider = "openai";
          encrypted_key = [];
          key_nonce = [];
          is_default = false;
          created_at = 0;
          updated_at = 0;
        }
        ∷ [];
  };
}

create_row-IsNewDefault_example :
    IsNewDefault LlmStore.table
      (Configs.create_row LlmStore.table "inserting" true
        (LlmStore.new_row "l3" "openai" "m" [] "k" true))
      with_default
      (LlmStore.new_row "l3" "openai" "m" [] "k" true
        (cleared LlmStore.table llms-TableLaws with_default))
unfolding LlmStore.set_is_default string_dec
create_row-IsNewDefault_example =
    create_row-IsNewDefault LlmStore.table llms-TableLaws "inserting"
      (LlmStore.new_row "l3" "openai" "m" [] "k" true) with_default (λ n. refl) refl refl refl

set_default_row-IsNewDefault_example :
    (c : LlmConfig) × (c.id ≡ "l2")
    × IsNewDefault LlmStore.table
        (Configs.set_default_row LlmStore.table "setting default" "not found" "l2")
        with_default
        c
unfolding LlmStore.set_is_default string_dec
set_default_row-IsNewDefault_example =
    set_default_row-IsNewDefault LlmStore.table llms-TableLaws "setting default" "not found" "l2"
      with_default (λ n. refl) refl

config-Methods_example :
    Methods
      (ApiKeys.create none (some alice) "n" "openai" (1 ∷ []) true)
      (ApiKeys.get (some alice) "l1")
      (ApiKeys.list (some alice))
      (ApiKeys.update_config none (some alice) "l1" "n" "openai" (1 ∷ []))
      (ApiKeys.delete (some alice) "l1")
      (ApiKeys.set_default (some alice) "l1")
    × Methods
        (Llms.create (some alice) "n" "openai" "m" [] "k" true)
        (Llms.get (some alice) "l1")
        (Llms.list (some alice))
        (Llms.update_config (some alice) "l1" "n" "openai" "m" [] "k")
        (Llms.delete (some alice) "l1")
        (Llms.set_default (some alice) "l1")
    × Methods
        (Embeddings.create (some alice) "n" "openai" "m" (pos 3) "k" true)
        (Embeddings.get (some alice) "l1")
        (Embeddings.list (some alice))
        (Embeddings.update_config (some alice) "l1" "n" "k")
        (Embeddings.delete (some alice) "l1")
        (Embeddings.set_default (some alice) "l1")
    × Methods
        (Prompts.create (some alice) "n" "p" "d" true)
        (Prompts.get (some alice) "l1")
        (Prompts.list (some alice))
        (Prompts.update_config (some alice) "l1" "n" "p" "d")
        (Prompts.delete (some alice) "l1")
        (Prompts.set_default (some alice) "l1")
    × Methods
        (Backends.create (some alice) "n" "pgvector" [] true)
        (Backends.get (some alice) "l1")
        (Backends.list (some alice))
        (Backends.update_config (some alice) "l1" "n" [])
        (Backends.delete (some alice) "l1")
        (Backends.set_default (some alice) "l1")
config-Methods_example =
    config-Methods none (some alice) "l1" "n" "openai" "m" "k" "p" "d" "pgvector" (1 ∷ []) [] []
      (pos 3) true refl

-- A cipher that only copies.
abbrev copying : Encryptor
copying = record { encrypt = λ n p. (p, []); decrypt = λ c n. some c }

abbrev created_key : ApiKeyConfig
created_key = record {
  id = "nnew";
  name = "main";
  provider = "openai";
  encrypted_key = 1 ∷ 2 ∷ [];
  key_nonce = [];
  is_default = false;
  created_at = 1;
  updated_at = 1;
}

creates_key :
    (ApiKeyStore.create (some copying) "main" "openai" (1 ∷ 2 ∷ []) false configured).0
    ≡ ok created_key
unfolding ApiKeyStore.create Configs.create_row Configs.insert_row begin commit rollback_on_error
    statement
creates_key = refl

create-get_decrypted_example :
    (ApiKeyStore.get_decrypted
      (some copying)
      "nnew"
      (ApiKeyStore.create (some copying) "main" "openai" (1 ∷ 2 ∷ []) false configured).1).0
    ≡ ok (1 ∷ 2 ∷ [])
unfolding ApiKeyStore.create Configs.create_row Configs.insert_row begin commit rollback_on_error
    statement
create-get_decrypted_example =
    create-get_decrypted copying "main" "openai" (1 ∷ 2 ∷ []) false configured
      (ApiKeyStore.create (some copying) "main" "openai" (1 ∷ 2 ∷ []) false configured).1
      created_key (λ n p. refl) creates_key refl refl refl
