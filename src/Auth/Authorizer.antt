-- ===== src/Auth/Authorizer.antt =====
-- internal/auth/authorizer.go and grant_authorizer.go: permission levels, `Check` and
-- `AccessibleTopics` over a `GrantStore`. The interface's methods are actions on the store's state.
pub mod Decision
pub mod Access
use creel.Base.{
  ℕ, String, Bool, true, false, List, [], ◌∷◌, ◌++◌, ◌||◌, ◌&&◌, not, leb, ◌==◌, contains,
  if◌then◌else◌,
}
use creel.Exec.{Exec, Result, ok, err, pure, fail, or_fail, ◌>>=◌}
use creel.Store.Rows.{Action, Principal, Grant, read, write, admin, other}

unfoldable pub permission_level : Action → ℕ
permission_level admin = 3
permission_level write = 2
permission_level read = 1
permission_level (other s) = 0

-- The interface auth.GrantStore over a state `S`.
pub record GrantStore (S : Type 0) : Type 0 where
  pub grants_for_principal : List String → Exec S String (List Grant)
  pub topic_owner : String → Exec S String String
  pub topic_ids_by_owner : String → Exec S String (List String)

unfoldable pub all_identities : Principal → List String
all_identities p = p.id ∷ p.groups

-- The loop of `Check` over the fetched grants.
unfoldable pub some_grant : String → ℕ → List Grant → Bool
some_grant topic_id required_level [] = false
some_grant topic_id required_level (g ∷ gs) =
    (g.topic_id == topic_id && leb required_level (permission_level g.permission))
    || some_grant topic_id required_level gs

-- The loop over the owned topics: each is marked as seen and appended, with no test.
-- The loop over the grants: a topic is appended at its first grant of the level.
unfoldable pub add_granted : ℕ → List Grant → List String → List String → List String
add_granted min_level [] seen result = result
add_granted min_level (g ∷ gs) seen result =
    let fresh = leb min_level (permission_level g.permission) && not (contains seen g.topic_id) in
    add_granted min_level gs (if fresh then g.topic_id ∷ seen else seen)
      (if fresh then result ++ g.topic_id ∷ [] else result)

module _ {S : Type 0} (store : GrantStore S) where
  unfoldable pub check : Principal → String → Action → Exec S String (Unit {0})
  check principal topic_id action = do
    owner ← or_fail (store.topic_owner topic_id) "checking topic owner"
    if owner == principal.id then pure tt else do
      grants ← or_fail (store.grants_for_principal (all_identities principal)) "fetching grants"
      if some_grant topic_id (permission_level action) grants
          then pure tt
          else fail "permission denied"

  unfoldable pub accessible_topics : Principal → Action → Exec S String (List String)
  accessible_topics principal min_action = do
    grants ← or_fail (store.grants_for_principal (all_identities principal)) "fetching grants"
    owned ← or_fail (store.topic_ids_by_owner principal.id) "fetching owned topics"
    pure (add_granted (permission_level min_action) grants owned owned)
