-- ===== src/Store/Topics.antt =====
-- internal/store/topic.go: the tables of topics and grants.
pub mod Keys
use creel.Base.{
  sort_by, ℕ, String, Bool, true, false, List, [], ◌∷◌, ◌++◌, Option, none, some, ◌&&◌, ◌||◌, not,
  leb, ◌==◌, contains, select, first, exists, update, if◌then◌else◌,
}
use creel.Exec.{Exec, Result, ok, err}
use creel.Store.Rows.{Topic, Grant, Action, ChunkingStrategy}
use creel.Store.World.{World, Db, Error, statement, row_or}
use creel.Store.Schema.{has_topic}
use creel.Store.Grants.{find_topic}
use creel.Store.Cascade.{delete_topic}

-- The config columns of a topic.
pub record TopicConfig : Type 0 where
  pub llm_config_id : Option String
  pub embedding_config_id : Option String
  pub extraction_prompt_config_id : Option String
  pub vector_backend_config_id : Option String

abbrev pub new_topic : World → String → String → String → String → TopicConfig → Topic
new_topic w slug name description owner config = record {
  id = w.env.new_id w.tick;
  slug = slug;
  name = name;
  description = description;
  owner = owner;
  created_at = w.env.now w.tick;
  updated_at = w.env.now w.tick;
  llm_config_id = config.llm_config_id;
  embedding_config_id = config.embedding_config_id;
  extraction_prompt_config_id = config.extraction_prompt_config_id;
  chunking_strategy = none;
  vector_backend_config_id = config.vector_backend_config_id;
}

-- A config column references a row of its table.
abbrev is_config : {R : Type 0} → (R → String) → List R → Option String → Bool
is_config id rows none = true
is_config id rows (some c) = exists (λ r. id r == c) rows

abbrev pub has_configs : Db → TopicConfig → Bool
has_configs db c =
    is_config (λ r. r.id) db.llm_configs c.llm_config_id
    && is_config (λ r. r.id) db.embedding_configs c.embedding_config_id
    && is_config (λ r. r.id) db.extraction_prompt_configs c.extraction_prompt_config_id
    && is_config (λ r. r.id) db.vector_backend_configs c.vector_backend_config_id

-- TopicStore.Create; the slug is unique, and the configurations must be there.
unfoldable pub create : String → String → String → String → TopicConfig → Exec World Error Topic
unfolding statement
create slug name description owner config = statement "inserting topic" λ w.
    let t = new_topic w slug name description owner config in
    if exists (λ r. r.slug == slug) w.db.topics || not (has_configs w.db config)
    then (err "inserting topic", w.db)
    else (ok t, record w.db { topics = w.db.topics ++ t ∷ [] })

-- TopicStore.Get.
unfoldable pub get : String → Exec World Error Topic
unfolding statement
get id =
    statement "querying topic" λ w. (row_or "topic not found" (find_topic id w.db.topics), w.db)

-- ORDER BY created_at.
abbrev insert_topic : Topic → List Topic → List Topic
insert_topic t [] = t ∷ []
insert_topic t (u ∷ us) =
    let rest = insert_topic t us in if leb t.created_at u.created_at then t ∷ u ∷ us else u ∷ rest

unfoldable pub by_created_at : List Topic → List Topic
by_created_at [] = []
by_created_at (t ∷ ts) = insert_topic t (by_created_at ts)

-- The WHERE clause of the LEFT JOIN with the grants; DISTINCT leaves each topic once.
abbrev pub listed_for : Db → List String → Topic → Bool
listed_for db principals t =
    contains principals t.owner
    || exists (λ g. g.topic_id == t.id && contains principals g.principal) db.grants

-- TopicStore.ListForPrincipals; `none` is the nil slice, for system accounts.
unfoldable pub list_for_principals : Option (List String) → Exec World Error (List Topic)
unfolding statement by_created_at
list_for_principals none = statement "listing topics" λ w. (ok (by_created_at w.db.topics), w.db)
list_for_principals (some ps) =
    statement "listing topics"
      λ w. (ok (by_created_at (select (listed_for w.db ps) w.db.topics)), w.db)

-- COALESCE($n, column).
abbrev pub coalesce : Option String → Option String → Option String
coalesce none old = old
coalesce (some v) old = some v

unfoldable pub set_topic : String → String → TopicConfig → ℕ → Topic → Topic
set_topic name description config now t = record t {
  name = name;
  description = description;
  llm_config_id = coalesce config.llm_config_id t.llm_config_id;
  embedding_config_id = coalesce config.embedding_config_id t.embedding_config_id;
  extraction_prompt_config_id =
      coalesce config.extraction_prompt_config_id t.extraction_prompt_config_id;
  vector_backend_config_id = coalesce config.vector_backend_config_id t.vector_backend_config_id;
  updated_at = now;
}

-- TopicStore.Update; the result is the updated row.
abbrev pub updated : Error → Db → String → (Topic → Topic) → Option Topic → Result Error Topic × Db
updated msg db id f none = (err msg, db)
updated msg db id f (some t) =
    (ok (f t), record db { topics = update (λ u. u.id == id) f db.topics })

unfoldable pub update_topic : String → String → String → TopicConfig → Exec World Error Topic
unfolding statement set_topic
update_topic id name description config = statement "updating topic" λ w.
    if exists (λ t. t.id == id) w.db.topics && not (has_configs w.db config)
    then (err "updating topic", w.db)
    else updated "topic not found" w.db id (set_topic name description config (w.env.now w.tick))
        (find_topic id w.db.topics)

abbrev pub deleted : Db → Option Db → Result Error (Unit {0}) × Db
deleted db none = (err "deleting topic", db)
deleted db (some db') = (ok tt, db')

-- TopicStore.Delete.
unfoldable pub delete : String → Exec World Error (Unit {0})
unfolding statement delete_topic
delete id = statement "deleting topic" λ w.
    if has_topic w.db.topics id
    then deleted w.db (delete_topic id w.db)
    else (err "topic not found", w.db)

-- The key (topic_id, principal) of a grant.
abbrev pub grant_key : String → String → Grant → Bool
grant_key topic_id principal g = g.topic_id == topic_id && g.principal == principal

abbrev pub new_grant : World → String → String → Action → String → Grant
new_grant w topic_id principal permission granted_by = record {
  id = w.env.new_id w.tick;
  topic_id = topic_id;
  principal = principal;
  permission = permission;
  granted_by = granted_by;
  created_at = w.env.now w.tick;
}

unfoldable pub set_permission : Action → Grant → Grant
set_permission permission g = record g { permission = permission }

-- INSERT … ON CONFLICT (topic_id, principal) DO UPDATE SET permission = $3.
abbrev pub upserted : Db → Action → Grant → (Grant → Bool) → Option Grant → Result Error Grant × Db
upserted db permission g key none = (ok g, record db { grants = db.grants ++ g ∷ [] })
upserted db permission g key (some old) = (
  ok (set_permission permission old),
  record db { grants = update key (set_permission permission) db.grants },
)

-- TopicStore.Grant; the topic must be there.
unfoldable pub grant : String → String → Action → String → Exec World Error Grant
unfolding statement set_permission
grant topic_id principal permission granted_by = statement "granting access" λ w.
    if has_topic w.db.topics topic_id
    then upserted w.db permission (new_grant w topic_id principal permission granted_by)
        (grant_key topic_id principal) (first (grant_key topic_id principal) w.db.grants)
    else (err "granting access", w.db)

-- TopicStore.Revoke.
unfoldable pub revoke : String → String → Exec World Error (Unit {0})
unfolding statement
revoke topic_id principal = statement "revoking access" λ w.
    if exists (grant_key topic_id principal) w.db.grants
    then (
      ok tt,
      record w.db { grants = select (λ g. not (grant_key topic_id principal g)) w.db.grants },
    )
    else (err "grant not found", w.db)

-- ORDER BY created_at.
unfoldable pub grants_by_created_at : List Grant → List Grant
grants_by_created_at = sort_by (λ x y. leb x.created_at y.created_at)

unfoldable pub list_grants : String → Exec World Error (List Grant)
unfolding statement grants_by_created_at
list_grants topic_id =
    statement "listing grants"
      λ w. (ok (grants_by_created_at (select (λ g. g.topic_id == topic_id) w.db.grants)), w.db)
