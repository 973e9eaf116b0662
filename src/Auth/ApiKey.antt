-- ===== src/Auth/ApiKey.antt =====
-- internal/auth/apikey.go and bootstrap.go: the validation of API keys. SHA-256 is a parameter.
use Prim.Native.Char.{code}
use creel.Base.{
  String, Bool, true, false, List, [], ◌∷◌, Option, none, some, eqb, ◌==◌, if◌then◌else◌,
}
use creel.Exec.{Exec, pure}
use creel.Store.Rows.{Principal}
use creel.Store.World.{World, Error}

-- What follows a prefix, if the string has it.
unfoldable pub after_text : String → String → Option String
after_text String.[] s = some s
after_text (String.◌∷◌ c p) String.[] = none
after_text (String.◌∷◌ c p) (String.◌∷◌ d s) =
    let rest = after_text p s in if eqb (code c) (code d) then rest else none

abbrev is_longer : Option String → Bool
is_longer none = false
is_longer (some String.[]) = false
is_longer (some (String.◌∷◌ c s)) = true

-- IsAPIKey.
unfoldable pub is_api_key : String → Bool
unfolding after_text
is_api_key token = is_longer (after_text "creel_ak_" token)

-- config.APIKeyConfig, the part that bootstrap.go reads.
pub record StaticKey : Type 0 where
  pub key_hash : String
  pub principal : String

-- A `map[string]*Principal`.
abbrev pub PrincipalMap : Type 0
PrincipalMap = List (String × Principal)

abbrev put_principal : String → Principal → PrincipalMap → PrincipalMap
put_principal k p [] = (k, p) ∷ []
put_principal k p ((j, q) ∷ m) = if j == k then (k, p) ∷ m else (j, q) ∷ put_principal k p m

abbrev pub find_principal : String → PrincipalMap → Option Principal
find_principal k [] = none
find_principal k ((j, p) ∷ m) = let rest = find_principal k m in if j == k then some p else rest

-- The loop of StaticKeysFromConfig over the keys, into the map made so far.
unfoldable pub static_keys_into : PrincipalMap → List StaticKey → PrincipalMap
static_keys_into m [] = m
static_keys_into m (k ∷ ks) =
    static_keys_into
      (put_principal k.key_hash (record { id = k.principal; groups = []; is_system = true }) m) ks

unfoldable pub static_keys_from_config : List StaticKey → PrincipalMap
unfolding static_keys_into
static_keys_from_config = static_keys_into []

-- The interface KeyLookup, or nil.
abbrev pub KeyLookup : Type 0
KeyLookup = String → Exec World Error (Option Principal)

pub record ApiKeyValidator : Type 0 where
  pub hash : String → String
  pub static_keys : PrincipalMap
  pub dynamic_lookup : Option KeyLookup

abbrev dynamic : Option KeyLookup → String → Exec World Error (Option Principal)
dynamic none hash = pure none
dynamic (some lookup) hash = lookup hash

abbrev static_or :
    Option Principal → Exec World Error (Option Principal) → Exec World Error (Option Principal)
static_or (some p) m = pure (some p)
static_or none m = m

-- APIKeyValidator.Validate.
unfoldable pub validate : ApiKeyValidator → String → Exec World Error (Option Principal)
validate v raw_key =
    static_or (find_principal (v.hash raw_key) v.static_keys)
      (dynamic v.dynamic_lookup (v.hash raw_key))
