-- ===== src/Auth/Middleware.antt =====
-- internal/auth/middleware.go: the interceptor before every handler.
pub mod Admission
pub mod Revoked
use creel.Base.{String, Bool, true, false, List, [], ◌∷◌, Option, none, some, ◌==◌, if◌then◌else◌}
use creel.Exec.{Exec, Result, ok, err, pure, fail, or_fail, ◌>>=◌, ◌>>◌}
use creel.Store.Rows.{Principal}
use creel.Store.World.{World}
use creel.Auth.ApiKey
use creel.Auth.ApiKey.{ApiKeyValidator, after_text, is_api_key}
use creel.Auth.Oidc
use creel.Auth.Oidc.{ProviderEntry, has_providers}
use creel.Server.Status.{Handler, Code}

-- publicMethods.
abbrev pub is_public : String → Bool
is_public method = method == "/creel.v1.AdminService/Health"

-- extractBearerToken: the values of the authorization header, if there are metadata at all.
abbrev bearer : String → Option String → String
bearer val none = val
bearer val (some token) = token

unfoldable pub extract_bearer_token : Option (List String) → Handler String
unfolding after_text
extract_bearer_token none = fail Code.unauthenticated
extract_bearer_token (some []) = fail Code.unauthenticated
extract_bearer_token (some (val ∷ vals)) = pure (bearer val (after_text "Bearer " val))

-- The two ways to a principal; with no OIDC validator the list is empty.
unfoldable pub principal_for :
    ApiKeyValidator → List ProviderEntry → String → Handler (Option Principal)
unfolding is_api_key has_providers ApiKey.validate Oidc.validate
principal_for keys oidc token =
    if is_api_key token
    then or_fail (ApiKey.validate keys token) Code.internal
    else if has_providers oidc
    then pure (Oidc.validate oidc token)
    else pure none

abbrev admitted : {A : Type 0} → Option Principal → (Option Principal → Handler A) → Handler A
admitted none handler = fail Code.unauthenticated
admitted (some p) handler = handler (some p)

-- UnaryInterceptor.
unfoldable pub intercept :
    {A : Type 0}
    → ApiKeyValidator
    → List ProviderEntry
    → String
    → Option (List String)
    → (Option Principal → Handler A)
    → Handler A
unfolding extract_bearer_token principal_for
intercept keys oidc method authorization handler = if is_public method then handler none else (do
  token ← extract_bearer_token authorization
  principal ← principal_for keys oidc token
  admitted principal handler)
