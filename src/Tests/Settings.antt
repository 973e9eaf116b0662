-- ===== src/Tests/Settings.antt =====
-- An example of the server's settings.
use creel.Base.{pos, false, [], none, some, ◌≡◌, refl, string_dec}
use creel.Exec.{ok}
use creel.Config.{Config}
use creel.Config.Load.{
  Surroundings, load, apply_defaults, apply_env_overrides, validate, byte_length, is_hex,
}
use creel.Config.Valid.{IsValid, load-IsValid}

abbrev minimal : Config
minimal = record {
  server = record { grpc_port = pos 0; rest_port = pos 0; metrics_port = pos 0 };
  auth = record { providers = []; principal_claim = ""; groups_claim = ""; api_keys = [] };
  postgres = record {
    host = "db";
    port = pos 0;
    user = "creel";
    password = "";
    name = "creel";
    schema = "";
    sslmode = "";
  };
  vector_backend = record { backend_type = ""; config = [] };
  embedding = record { provider = ""; model = ""; api_key = "" };
  links = record {
    auto_link_on_ingest = false;
    auto_link_threshold = 0;
    max_traversal_depth = pos 0;
  };
  compaction = record { retain_compacted_chunks = false };
  encryption_key = "";
  workers = record { concurrency = pos 0; poll_interval = pos 0 };
}

abbrev surroundings : Surroundings
surroundings = record {
  read_file = λ path. some [];
  unmarshal = λ text. some minimal;
  lookup_env = λ key. none;
  scan_int = λ text. none;
  scan_float = λ text. none;
  parse_duration = λ text. none;
}

abbrev filled : Config
filled = record minimal {
  server = record { grpc_port = pos 8443; rest_port = pos 8080; metrics_port = pos 9090 };
  auth = record { providers = []; principal_claim = "sub"; groups_claim = ""; api_keys = [] };
  postgres = record {
    host = "db";
    port = pos 5432;
    user = "creel";
    password = "";
    name = "creel";
    schema = "creel";
    sslmode = "disable";
  };
  vector_backend = record { backend_type = "pgvector"; config = [] };
  workers = record { concurrency = pos 4; poll_interval = pos 5_000_000_000 };
}

loads : load surroundings "creel.yaml" ≡ ok filled
unfolding load apply_defaults apply_env_overrides validate byte_length is_hex string_dec
loads = refl

load-IsValid_example : IsValid filled
load-IsValid_example = load-IsValid surroundings "creel.yaml" filled loads
