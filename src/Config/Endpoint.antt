-- ===== src/Config/Endpoint.antt =====
-- ParseGRPCEndpoint of internal/config/config.go; `url.Parse` is a parameter.
use Prim.Native.String.{◌++◌}
use creel.Base.{String, Bool, true, false, Option, none, some, ◌==◌, if◌then◌else◌}
use creel.Exec.{Result, ok, err}
use creel.Store.World.{Error}
use creel.Auth.ApiKey.{after_text}

pub record GrpcEndpoint : Type 0 where
  pub host : String
  pub tls : Bool

-- The parts of a url.URL that are read.
pub record Url : Type 0 where
  pub scheme : String
  pub url_host : String
  pub hostname : String
  pub port : String

abbrev is_some : Option String → Bool
is_some none = false
is_some (some _) = true

-- strings.Contains(raw, "://").
unfoldable pub has_scheme : String → Bool
unfolding after_text
has_scheme String.[] = false
has_scheme (String.◌∷◌ c s) =
    let rest = has_scheme s in if is_some (after_text "://" (String.◌∷◌ c s)) then true else rest

-- The switch over the scheme.
unfoldable pub endpoint_of : Url → Result Error GrpcEndpoint
endpoint_of u =
    if u.scheme == "https"
    then ok
        (record { host = if u.port == "" then u.hostname ++ ":443" else u.url_host; tls = true })
    else if u.scheme == "http"
    then if u.port == ""
      then err "http:// endpoint requires an explicit port"
      else ok (record { host = u.url_host; tls = false })
    else err "unsupported scheme in endpoint URL"

unfoldable pub parse_grpc_endpoint : (String → Option Url) → String → Result Error GrpcEndpoint
unfolding has_scheme endpoint_of
parse_grpc_endpoint parse raw =
    if has_scheme raw
    then elim (parse raw) [ none ↦ err "invalid endpoint URL" | some u ↦ endpoint_of u ]
    else ok (record { host = raw; tls = false })
