-- ===== src/Auth/Oidc.antt =====
-- internal/auth/oidc.go: the validation of OIDC tokens. The verifiers are a parameter: discovery and
-- the check of a token are go-oidc's.
use Prim.Native.Char.{code, Char}
use creel.Base.{
  ℕ, String, Bool, false, List, [], ◌∷◌, Option, none, some, map, eqb, leb, ◌||◌, ◌&&◌, ◌==◌,
  is_empty, not, if◌then◌else◌,
}
use creel.Store.Rows.{Json, JsonItems, str, arr, nil, cons, Metadata, lookup, Principal}
use creel.Store.Accounts.{append_text}

-- providerEntry; `verify` gives the claims of a token that it accepts.
pub record ProviderEntry : Type 0 where
  pub verify : String → Option Metadata
  pub principal_claim : String
  pub groups_claim : String

-- config.OIDCProviderConfig with what discovery finds; an empty principal claim means `sub`.
unfoldable pub provider_entry : (String → Option Metadata) → String → String → ProviderEntry
provider_entry verify principal_claim groups_claim = record {
  verify = verify;
  principal_claim = if principal_claim == "" then "sub" else principal_claim;
  groups_claim = groups_claim;
}

-- claimString: the empty string stands for a missing claim, which is what the caller tests.
unfoldable pub claim_string : Metadata → String → String
claim_string claims key =
    if key == "" then "" else elim (lookup key claims) [ some (str s) ↦ s | _ ↦ "" ]

-- unicode.IsSpace.
abbrev is_space : ℕ → Bool
is_space c =
    leb 9 c && leb c 13
    || (eqb c 32
        || (eqb c 0x85
            || (eqb c 0xa0
                || (eqb c 0x1680
                    || (leb 0x2000 c && leb c 0x200a
                        || (eqb c 0x2028
                            || (eqb c 0x2029
                                || (eqb c 0x202f || (eqb c 0x205f || eqb c 0x3000)))))))))

-- `strings.Fields`: the head of the result is the word under way, which may be empty.
abbrev onto_word : Char → List String → List String
onto_word c [] = (String.◌∷◌ c String.[]) ∷ []
onto_word c (w ∷ ws) = (String.◌∷◌ c w) ∷ ws

unfoldable pub words_from : String → List String
words_from String.[] = "" ∷ []
words_from (String.◌∷◌ c s) =
    let rest = words_from s in if is_space (code c) then "" ∷ rest else onto_word c rest

unfoldable pub drop_empty : List String → List String
drop_empty [] = []
drop_empty (w ∷ ws) = let rest = drop_empty ws in if w == "" then rest else w ∷ rest

unfoldable pub fields : String → List String
unfolding words_from drop_empty
fields s = drop_empty (words_from s)

abbrev pub group_of : String → String
group_of = append_text "group:"

unfoldable pub group_items : JsonItems → List String
group_items nil = []
group_items (cons (str s) items) = group_of s ∷ group_items items
group_items (cons _ items) = group_items items

abbrev groups_in : Option Json → List String
groups_in (some (arr items)) = group_items items
groups_in (some (str s)) = map group_of (fields s)
groups_in _ = []

-- claimStringSlice.
unfoldable pub claim_groups : Metadata → String → List String
unfolding group_items fields
claim_groups claims key = if key == "" then [] else groups_in (lookup key claims)

abbrev pub user_principal : ProviderEntry → Metadata → Principal
user_principal e claims = record {
  id = append_text "user:" (claim_string claims e.principal_claim);
  groups = claim_groups claims e.groups_claim;
  is_system = false;
}

-- A provider's verdict on a token.
unfoldable pub accept : ProviderEntry → String → Option Principal
unfolding claim_string claim_groups
accept e token = elim (e.verify token) [
  | none ↦ none
  | some claims ↦
      if claim_string claims e.principal_claim == "" then none else some (user_principal e claims)
]

abbrev pub accepted_or : Option Principal → Option Principal → Option Principal
accepted_or none rest = rest
accepted_or (some p) rest = some p

-- OIDCValidator.Validate: the loop over the providers, in the order in which the map yields them.
unfoldable pub validate : List ProviderEntry → String → Option Principal
unfolding accept
validate [] token = none
validate (e ∷ entries) token = accepted_or (accept e token) (validate entries token)

unfoldable pub has_providers : List ProviderEntry → Bool
has_providers entries = not (is_empty entries)
