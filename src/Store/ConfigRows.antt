-- ===== src/Store/ConfigRows.antt =====
-- The rows of the tables of configurations (internal/store/*_config.go). A key that is stored is its
-- ciphertext and nonce.
use creel.Base.{ℕ, String, Bool, List}
use creel.Store.Rows.{Metadata}

pub record ApiKeyConfig : Type 0 where
  pub id : String
  pub name : String
  pub provider : String
  pub encrypted_key : List ℕ
  pub key_nonce : List ℕ
  pub is_default : Bool
  pub created_at : ℕ
  pub updated_at : ℕ

-- `map[string]string`.
abbrev pub Parameters : Type 0
Parameters = List (String × String)

pub record LlmConfig : Type 0 where
  pub id : String
  pub name : String
  pub provider : String
  pub model : String
  pub parameters : Parameters
  pub api_key_config_id : String
  pub is_default : Bool
  pub created_at : ℕ
  pub updated_at : ℕ

pub record EmbeddingConfig : Type 0 where
  pub id : String
  pub name : String
  pub provider : String
  pub model : String
  pub dimensions : ℕ
  pub api_key_config_id : String
  pub is_default : Bool
  pub created_at : ℕ
  pub updated_at : ℕ

pub record ExtractionPromptConfig : Type 0 where
  pub id : String
  pub name : String
  pub prompt : String
  pub description : String
  pub is_default : Bool
  pub created_at : ℕ
  pub updated_at : ℕ

pub record VectorBackendConfig : Type 0 where
  pub id : String
  pub name : String
  pub backend : String
  pub config : Metadata
  pub is_default : Bool
  pub created_at : ℕ
  pub updated_at : ℕ
