-- ===== src/Config.antt =====
-- internal/config/config.go: the settings of the server. A secret key is a string; numbers and
-- durations (in nanoseconds) are integers; a float is its bits.
pub mod Endpoint
pub mod Load
pub mod Valid
use Prim.Native.String.{◌++◌}
use creel.Base.{ℕ, ℤ, String, Bool, List}
use creel.Store.Rows.{Metadata}

pub record WorkersConfig : Type 0 where
  pub concurrency : ℤ
  pub poll_interval : ℤ

pub record ServerConfig : Type 0 where
  pub grpc_port : ℤ
  pub rest_port : ℤ
  pub metrics_port : ℤ

pub record OidcProviderConfig : Type 0 where
  pub issuer : String
  pub audience : String

pub record ApiKeyConfig : Type 0 where
  pub name : String
  pub key_hash : String
  pub principal : String

pub record AuthConfig : Type 0 where
  pub providers : List OidcProviderConfig
  pub principal_claim : String
  pub groups_claim : String
  pub api_keys : List ApiKeyConfig

pub record PostgresConfig : Type 0 where
  pub host : String
  pub port : ℤ
  pub user : String
  pub password : String
  pub name : String
  pub schema : String
  pub sslmode : String

pub record VectorBackendConfig : Type 0 where
  pub backend_type : String
  pub config : Metadata

pub record EmbeddingConfig : Type 0 where
  pub provider : String
  pub model : String
  pub api_key : String

pub record LinksConfig : Type 0 where
  pub auto_link_on_ingest : Bool
  pub auto_link_threshold : ℕ
  pub max_traversal_depth : ℤ

pub record CompactionConfig : Type 0 where
  pub retain_compacted_chunks : Bool

pub record Config : Type 0 where
  pub server : ServerConfig
  pub auth : AuthConfig
  pub postgres : PostgresConfig
  pub vector_backend : VectorBackendConfig
  pub embedding : EmbeddingConfig
  pub links : LinksConfig
  pub compaction : CompactionConfig
  pub encryption_key : String
  pub workers : WorkersConfig

-- PostgresConfig.BaseURL; `decimal` is the `%d` of the standard library.
unfoldable pub base_url : (ℤ → String) → PostgresConfig → String
base_url decimal p =
    "postgres://"
    ++ p.user
    ++ ":"
    ++ p.password
    ++ "@"
    ++ p.host
    ++ ":"
    ++ decimal p.port
    ++ "/"
    ++ p.name
    ++ "?sslmode="
    ++ p.sslmode

-- PostgresConfig.URL.
unfoldable pub url : (ℤ → String) → PostgresConfig → String
url decimal p =
    "postgres://"
    ++ p.user
    ++ ":"
    ++ p.password
    ++ "@"
    ++ p.host
    ++ ":"
    ++ decimal p.port
    ++ "/"
    ++ p.name
    ++ "?sslmode="
    ++ p.sslmode
    ++ "&search_path="
    ++ p.schema
    ++ ",public"
