-- ===== src/Server/Topic/Guarded.antt =====
-- Who may change a topic or its grants: the writing handlers of internal/server/topic.go together.
use creel.Base.{String, Option, ◌≡◌, ◌⊎◌}
use creel.Store.Rows.{Principal, Action}
use creel.Store.World.{World}
use creel.Server.Guarded.{WritesOnlyIf, CallerAllowed, guarded_rules}
use creel.Server.Topic.{
  EmbeddingStore, TopicRequest, Permission, update_topic, delete_topic, grant_access, revoke_access,
}

-- A call that writes to an existing topic.
pub data Call : Type 0 where
  updates : EmbeddingStore → TopicRequest → Call
  deletes : String → Call
  grants : String → String → Permission → Call
  revokes : String → String → Call

abbrev pub target : Call → String
target (updates configs req) = req.id
target (deletes id) = id
target (grants id principal permission) = id
target (revokes id principal) = id

unfoldable pub serve : Option Principal → Call → World → World
serve p (updates configs req) w = (update_topic configs p req w).1
serve p (deletes id) w = (delete_topic p id w).1
serve p (grants id principal permission) w = (grant_access p id principal permission w).1
serve p (revokes id principal) w = (revoke_access p id principal w).1

module _ (p : Option Principal) (id : String) where
  delete_topic-WritesOnlyIf : WritesOnlyIf (CallerAllowed p id Action.admin) (delete_topic p id)
  unfolding delete_topic
  delete_topic-WritesOnlyIf = search guarded_rules

  grant_access-WritesOnlyIf :
      (principal : String) (permission : Permission)
      → WritesOnlyIf (CallerAllowed p id Action.admin) (grant_access p id principal permission)
  unfolding grant_access
  grant_access-WritesOnlyIf principal permission = search guarded_rules

  revoke_access-WritesOnlyIf :
      (principal : String)
      → WritesOnlyIf (CallerAllowed p id Action.admin) (revoke_access p id principal)
  unfolding revoke_access
  revoke_access-WritesOnlyIf principal = search guarded_rules

update_topic-WritesOnlyIf :
    (configs : EmbeddingStore) (p : Option Principal) (req : TopicRequest)
    → WritesOnlyIf (CallerAllowed p req.id Action.admin) (update_topic configs p req)
unfolding update_topic
update_topic-WritesOnlyIf configs p req = search guarded_rules

-- Whatever statements fail, such a call changes the tables only if the caller is known and may
-- administer the topic: as its owner, or by a grant at the admin level to it or to one of its groups.
pub serve-Allowed :
    (p : Option Principal) (call : Call) (w : World)
    → ((serve p call w).db ≡ w.db) ⊎ CallerAllowed p (target call) Action.admin w.db
unfolding serve
serve-Allowed p (updates configs req) w = (update_topic-WritesOnlyIf configs p req).at w
serve-Allowed p (deletes id) w = (delete_topic-WritesOnlyIf p id).at w
serve-Allowed p (grants id principal permission) w =
    (grant_access-WritesOnlyIf p id principal permission).at w
serve-Allowed p (revokes id principal) w = (revoke_access-WritesOnlyIf p id principal).at w
