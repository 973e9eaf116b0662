-- ===== src/Config/Load.antt =====
-- internal/config/load.go. The file, the YAML decoder, the environment and the scanners of the standard
-- library are parameters; the walk over the struct's fields is written out field by field.
use Prim.Native.Char.{code}
use creel.Base.{
  ℕ, zero, ◌+◌, ◌*◌, ℤ, pos, negsuc, String, Bool, true, false, List, Option, none, some, ◌&&◌,
  ◌||◌, leb, ltb, eqb, not, ◌==◌, if◌then◌else◌,
}
use creel.Exec.{Result, ok, err}
use creel.Store.World.{Error}
use creel.Config.{Config, PostgresConfig}

pub record Surroundings : Type 0 where
  pub read_file : String → Option (List ℕ)
  pub unmarshal : List ℕ → Option Config
  pub lookup_env : String → Option String
  pub scan_int : String → Option ℤ
  pub scan_float : String → Option ℕ
  pub parse_duration : String → Option ℤ

abbrev is_zero : ℤ → Bool
is_zero (pos zero) = true
is_zero _ = false

abbrev pub or_number : ℤ → ℤ → ℤ
or_number n d = if is_zero n then d else n

abbrev pub or_text : String → String → String
or_text s d = if s == "" then d else s

abbrev second : ℕ
second = 1_000_000_000

-- applyDefaults.
unfoldable pub apply_defaults : Config → Config
apply_defaults c = record c {
  server = record {
    grpc_port = or_number c.server.grpc_port (pos 8443);
    rest_port = or_number c.server.rest_port (pos 8080);
    metrics_port = or_number c.server.metrics_port (pos 9090);
  };
  auth = record c.auth { principal_claim = or_text c.auth.principal_claim "sub" };
  vector_backend = record c.vector_backend {
    backend_type = or_text c.vector_backend.backend_type "pgvector";
  };
  postgres = record c.postgres {
    port = or_number c.postgres.port (pos 5432);
    schema = or_text c.postgres.schema "creel";
    sslmode = or_text c.postgres.sslmode "disable";
  };
  workers = record {
    concurrency = or_number c.workers.concurrency (pos 4);
    poll_interval = or_number c.workers.poll_interval (pos (5 * second));
  };
}

-- `port < 1 || port > 65535`.
abbrev pub is_port : ℤ → Bool
is_port (pos n) = leb 1 n && leb n 65535
is_port (negsuc n) = false

-- `len` of a string: the bytes of its UTF-8 form.
abbrev utf8_width : ℕ → ℕ
utf8_width c = if ltb c 0x80 then 1 else if ltb c 0x800 then 2 else if ltb c 0x10000 then 3 else 4

unfoldable pub byte_length : String → ℕ
byte_length String.[] = 0
byte_length (String.◌∷◌ c s) = utf8_width (code c) + byte_length s

abbrev is_hex_digit : ℕ → Bool
is_hex_digit c = leb b'0' c && leb c b'9' || (leb b'a' c && leb c b'f' || leb b'A' c && leb c b'F')

-- Whether hex.DecodeString accepts a string of even length.
unfoldable pub is_hex : String → Bool
is_hex String.[] = true
is_hex (String.◌∷◌ c s) = is_hex_digit (code c) && is_hex s

-- The `if`s of validate, one after the other: a condition, and the error where it does not hold.
abbrev pub need : Bool → Error → Result Error (Unit {0}) → Result Error (Unit {0})
need true e rest = rest
need false e rest = err e

unfoldable pub validate : Config → Result Error (Unit {0})
unfolding byte_length is_hex
validate c = need (not (c.postgres.host == "")) "postgres.host is required" (
    need (not (c.postgres.user == "")) "postgres.user is required" (
      need (not (c.postgres.name == "")) "postgres.name is required" (
        need (is_port c.server.grpc_port) "server.grpc_port must be between 1 and 65535" (
          need (is_port c.server.rest_port) "server.rest_port must be between 1 and 65535" (
            need (is_port c.server.metrics_port) "server.metrics_port must be between 1 and 65535" (
              if c.encryption_key == ""
              then ok tt
              else need (eqb (byte_length c.encryption_key) 64)
                  "encryption_key must be 64 hex characters"
                  (need (is_hex c.encryption_key) "encryption_key must be valid hex" (ok tt))))))))

module _ (s : Surroundings) where
  -- The cases of the switch over the kind of a field.
  abbrev env_text : String → String → String
  env_text key old = elim (s.lookup_env key) [ none ↦ old | some v ↦ v ]

  abbrev or_old {ℓ} : {A : Type ℓ} → Option A → A → A
  or_old none old = old
  or_old (some a) old = a

  abbrev env_int : String → ℤ → ℤ
  env_int key old = elim (s.lookup_env key) [ none ↦ old | some v ↦ or_old (s.scan_int v) old ]

  abbrev env_duration : String → ℤ → ℤ
  env_duration key old = elim (s.lookup_env key) [
    | none ↦ old
    | some v ↦ or_old (s.parse_duration v) old
  ]

  abbrev env_float : String → ℕ → ℕ
  env_float key old = elim (s.lookup_env key) [ none ↦ old | some v ↦ or_old (s.scan_float v) old ]

  abbrev env_bool : String → Bool → Bool
  env_bool key old = elim (s.lookup_env key) [ none ↦ old | some v ↦ v == "true" || v == "1" ]

  -- applyEnvOverrides; lists and maps are left as they are.
  unfoldable pub apply_env_overrides : Config → Config
  apply_env_overrides c = record c {
    server = record {
      grpc_port = env_int "CREEL_SERVER_GRPC_PORT" c.server.grpc_port;
      rest_port = env_int "CREEL_SERVER_REST_PORT" c.server.rest_port;
      metrics_port = env_int "CREEL_SERVER_METRICS_PORT" c.server.metrics_port;
    };
    auth = record c.auth {
      principal_claim = env_text "CREEL_AUTH_PRINCIPAL_CLAIM" c.auth.principal_claim;
      groups_claim = env_text "CREEL_AUTH_GROUPS_CLAIM" c.auth.groups_claim;
    };
    postgres = record {
      host = env_text "CREEL_POSTGRES_HOST" c.postgres.host;
      port = env_int "CREEL_POSTGRES_PORT" c.postgres.port;
      user = env_text "CREEL_POSTGRES_USER" c.postgres.user;
      password = env_text "CREEL_POSTGRES_PASSWORD" c.postgres.password;
      name = env_text "CREEL_POSTGRES_NAME" c.postgres.name;
      schema = env_text "CREEL_POSTGRES_SCHEMA" c.postgres.schema;
      sslmode = env_text "CREEL_POSTGRES_SSLMODE" c.postgres.sslmode;
    };
    vector_backend = record c.vector_backend {
      backend_type = env_text "CREEL_VECTOR_BACKEND_TYPE" c.vector_backend.backend_type;
    };
    embedding = record {
      provider = env_text "CREEL_EMBEDDING_PROVIDER" c.embedding.provider;
      model = env_text "CREEL_EMBEDDING_MODEL" c.embedding.model;
      api_key = env_text "CREEL_EMBEDDING_API_KEY" c.embedding.api_key;
    };
    links = record {
      auto_link_on_ingest = env_bool "CREEL_LINKS_AUTO_LINK_ON_INGEST" c.links.auto_link_on_ingest;
      auto_link_threshold = env_float "CREEL_LINKS_AUTO_LINK_THRESHOLD" c.links.auto_link_threshold;
      max_traversal_depth = env_int "CREEL_LINKS_MAX_TRAVERSAL_DEPTH" c.links.max_traversal_depth;
    };
    compaction = record {
      retain_compacted_chunks =
          env_bool "CREEL_COMPACTION_RETAIN_COMPACTED_CHUNKS" c.compaction.retain_compacted_chunks;
    };
    encryption_key = env_text "CREEL_ENCRYPTION_KEY" c.encryption_key;
    workers = record {
      concurrency = env_int "CREEL_WORKERS_CONCURRENCY" c.workers.concurrency;
      poll_interval = env_duration "CREEL_WORKERS_POLL_INTERVAL" c.workers.poll_interval;
    };
  }

  abbrev pub checked : Config → Result Error (Unit {0}) → Result Error Config
  checked c (ok _) = ok c
  checked c (err _) = err "validating config"

  abbrev pub completed : Config → Config
  completed c = apply_defaults (apply_env_overrides c)

  unfoldable pub load : String → Result Error Config
  unfolding apply_defaults apply_env_overrides validate
  load path = elim (s.read_file path) [
    | none ↦ err "reading config file"
    | some data' ↦ elim (s.unmarshal data') [
      | none ↦ err "parsing config file"
      | some c ↦ checked (completed c) (validate (completed c))
    ]
  ]

  abbrev env_or_empty : String → String
  env_or_empty key = env_text key ""

  -- PostgresConfigFromEnv; Sscanf leaves the port 0 when it fails.
  unfoldable pub postgres_config_from_env : Option PostgresConfig
  postgres_config_from_env =
      if env_or_empty "CREEL_POSTGRES_HOST" == ""
      then none
      else some (record {
        host = env_or_empty "CREEL_POSTGRES_HOST";
        port =
            or_number (or_old (s.scan_int (env_or_empty "CREEL_POSTGRES_PORT")) (pos 0)) (pos 5432);
        user = env_or_empty "CREEL_POSTGRES_USER";
        password = env_or_empty "CREEL_POSTGRES_PASSWORD";
        name = env_or_empty "CREEL_POSTGRES_NAME";
        schema = or_text (env_or_empty "CREEL_POSTGRES_SCHEMA") "creel";
        sslmode = or_text (env_or_empty "CREEL_POSTGRES_SSLMODE") "disable";
      })
