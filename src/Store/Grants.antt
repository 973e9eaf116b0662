-- ===== src/Store/Grants.antt =====
-- internal/store/grant.go: the grant store over the tables `topic_grants` and `topics`.
use creel.Base.{String, List, map, contains, ◌==◌, select, first, Option, none, some}
use creel.Exec.{Exec, Result, ok, err}
use creel.Store.Rows.{Grant, Topic}
use creel.Store.World.{World, statement}
use creel.Auth.Authorizer.{GrantStore}

abbrev pub find_topic : String → List Topic → Option Topic
find_topic id = first (λ t. t.id == id)

unfoldable pub grants_for_principal : List String → Exec World String (List Grant)
unfolding statement
grants_for_principal principals =
    statement "querying grants"
      λ w. (ok (select (λ g. contains principals g.principal) w.db.grants), w.db)

abbrev owner_of : Option Topic → Result String String
owner_of none = err "querying topic owner"
owner_of (some t) = ok t.owner

unfoldable pub topic_owner : String → Exec World String String
unfolding statement
topic_owner topic_id =
    statement "querying topic owner" λ w. (owner_of (find_topic topic_id w.db.topics), w.db)

unfoldable pub topic_ids_by_owner : String → Exec World String (List String)
unfolding statement
topic_ids_by_owner owner_id =
    statement "querying owned topics"
      λ w. (ok (map (λ t. t.id) (select (λ t. t.owner == owner_id) w.db.topics)), w.db)

-- store.GrantStore as an implementation of auth.GrantStore.
abbrev pub grant_store : GrantStore World
grant_store = record {
  grants_for_principal = grants_for_principal;
  topic_owner = topic_owner;
  topic_ids_by_owner = topic_ids_by_owner;
}
