-- ===== src/Server/Topic.antt =====
-- internal/server/topic.go: the TopicService.
pub mod Guarded
pub mod Sharing
use creel.Base.{
  ℕ, String, Bool, true, false, List, [], ◌∷◌, Option, none, some, ◌&&◌, ◌||◌, not, ◌==◌,
  if◌then◌else◌,
}
use creel.Exec.{Exec, Result, ok, err, pure, fail, guard, ◌>>=◌, ◌>>◌}
use creel.Store.Rows.{Topic, Grant, Principal, Action}
use creel.Store.World.{World}
use creel.Store.Topics
use creel.Store.Topics.{TopicConfig, coalesce}
use creel.Server.Status.{
  Code, Handler, authenticate, authorize, or_internal, or_not_found, invalid_argument,
}

-- pb.Permission; an open enum, so that any further number may come.
pub data Permission : Type 0 where
  unspecified read write admin : Permission
  unknown : ℕ → Permission

unfoldable pub permission_to_action : Permission → Action
permission_to_action Permission.read = Action.read
permission_to_action Permission.write = Action.write
permission_to_action Permission.admin = Action.admin
permission_to_action _ = Action.read

unfoldable pub action_to_permission : Action → Permission
action_to_permission Action.read = Permission.read
action_to_permission Action.write = Permission.write
action_to_permission Action.admin = Permission.admin
action_to_permission (Action.other s) = unspecified

abbrev pub is_unspecified : Permission → Bool
is_unspecified unspecified = true
is_unspecified _ = false

pub record TopicRequest : Type 0 where
  pub id : String
  pub slug : String
  pub name : String
  pub description : String
  pub config : TopicConfig

-- `x != nil && *x != ""`.
abbrev pub is_set : Option String → Bool
is_set none = false
is_set (some s) = not (s == "")

-- An extraction prompt needs an LLM config.
abbrev pub prompt_has_llm : Option String → Option String → Bool
prompt_has_llm prompt llm = not (is_set prompt) || is_set llm

-- `generated` is what `slug.Generate` makes of the name.
unfoldable pub create_topic : String → Option Principal → TopicRequest → Handler Topic
create_topic generated p req = do
  caller ← authenticate p
  guard (not (req.name == "")) invalid_argument
  guard (prompt_has_llm req.config.extraction_prompt_config_id req.config.llm_config_id)
      invalid_argument
  or_internal (
      Topics.create (if req.slug == "" then generated else req.slug) req.name req.description
        caller.id req.config)

unfoldable pub get_topic : Option Principal → String → Handler Topic
get_topic p id = do
  caller ← authenticate p
  guard (not (id == "")) invalid_argument
  authorize caller id Action.read
  or_not_found (Topics.get id)

-- System accounts see all topics.
unfoldable pub list_topics : Option Principal → Handler (List Topic)
list_topics p = do
  caller ← authenticate p
  or_internal (
      Topics.list_for_principals
        (if caller.is_system then none else some (caller.id ∷ caller.groups)))

-- What `UpdateTopic` reads of an embedding config.
pub record EmbeddingConfig : Type 0 where
  pub provider : String
  pub model : String

-- `embeddingStore.Get`, or no store: what the table of embedding configs gives. It has no other tables.
abbrev pub EmbeddingStore : Type 0
EmbeddingStore = Option (String → Result String EmbeddingConfig)

abbrev pub config_of : Result String EmbeddingConfig → Handler EmbeddingConfig
config_of (ok c) = pure c
config_of (err e) = fail Code.internal

abbrev pub same_space : EmbeddingConfig → EmbeddingConfig → Bool
same_space old new = old.provider == new.provider && old.model == new.model

-- The embedding config may only change to one with the same provider and model.
unfoldable pub embedding_change :
    EmbeddingStore → Option String → Option String → Handler (Unit {0})
embedding_change none new old = pure tt
embedding_change (some get) none old = pure tt
embedding_change (some get) (some new) none = pure tt
embedding_change (some get) (some new) (some old) =
    if not (old == "") && not (new == old)
    then (do
      old_config ← config_of (get old)
      new_config ← config_of (get new)
      guard (same_space old_config new_config) invalid_argument)
    else pure tt

unfoldable pub update_topic : EmbeddingStore → Option Principal → TopicRequest → Handler Topic
unfolding embedding_change
update_topic configs p req = do
  caller ← authenticate p
  guard (not (req.id == "")) invalid_argument
  authorize caller req.id Action.admin
  existing ← or_not_found (Topics.get req.id)
  guard
      (prompt_has_llm
        (coalesce req.config.extraction_prompt_config_id existing.extraction_prompt_config_id)
        (coalesce req.config.llm_config_id existing.llm_config_id))
      invalid_argument
  embedding_change configs req.config.embedding_config_id existing.embedding_config_id
  or_internal (Topics.update_topic req.id req.name req.description req.config)

unfoldable pub delete_topic : Option Principal → String → Handler (Unit {0})
delete_topic p id = do
  caller ← authenticate p
  guard (not (id == "")) invalid_argument
  authorize caller id Action.admin
  or_internal (Topics.delete id)

unfoldable pub grant_access : Option Principal → String → String → Permission → Handler Grant
grant_access p topic_id principal permission = do
  caller ← authenticate p
  guard (not (topic_id == "" || principal == "")) invalid_argument
  guard (not (is_unspecified permission)) invalid_argument
  authorize caller topic_id Action.admin
  or_internal (Topics.grant topic_id principal (permission_to_action permission) caller.id)

unfoldable pub revoke_access : Option Principal → String → String → Handler (Unit {0})
revoke_access p topic_id principal = do
  caller ← authenticate p
  guard (not (topic_id == "" || principal == "")) invalid_argument
  authorize caller topic_id Action.admin
  or_internal (Topics.revoke topic_id principal)

unfoldable pub list_grants : Option Principal → String → Handler (List Grant)
list_grants p topic_id = do
  caller ← authenticate p
  guard (not (topic_id == "")) invalid_argument
  authorize caller topic_id Action.read
  or_internal (Topics.list_grants topic_id)
