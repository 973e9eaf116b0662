-- ===== src/Store/Topics/Keys.antt =====
-- `Grant` and `Revoke` of internal/store/topic.go as writes at the key (topic_id, principal).
use creel.Base.{
  ◌≤◌, String, Bool, true, false, [], ◌∷◌, ◌≡◌, refl, Option, none, some, arith, ◌&&◌, not, leb,
  exists, first, select, exists-update, exists-append, exists-select_none,
}
use creel.Exec.{ok}
use creel.Store.Rows.{Action, Grant}
use creel.Store.World.{World}
use creel.Store.Schema.{has_topic}
use creel.Store.Topics
use creel.Store.Topics.{grant_key, set_permission, new_grant}
use creel.Auth.Authorizer.{permission_level}

-- A grant of the key at no lower a level.
abbrev pub at_least : String → String → Action → Grant → Bool
at_least topic_id principal a g =
    grant_key topic_id principal g && leb (permission_level a) (permission_level g.permission)

-- After a successful `Grant` the key has a grant of the level, and the topics are as before.
granted-cases :
    (topic_id principal : String) (permission a : Action) (by : String) (w : World) (row : Grant)
    (o : Option Grant)
    → first (grant_key topic_id principal) w.db.grants ≡ o
    → permission_level a ≤ permission_level permission
    → (Topics.grant topic_id principal permission by w).0 ≡ ok row
    → let after = (Topics.grant topic_id principal permission by w).1.db in
      (exists (at_least topic_id principal a) after.grants ≡ true)
      × (after.topics ≡ w.db.topics)
      × (has_topic w.db.topics topic_id ≡ true)
unfolding Topics.grant
granted-cases t p perm a by w row none e l h = (
  ground (arith, exists-append (at_least t p a) w.db.grants (new_grant w t p perm by ∷ [])),
  ground arith,
  ground arith,
)
granted-cases t p perm a by w row (some old) e l h = (
  ground
      (arith, exists-update (grant_key t p) (at_least t p a) (set_permission perm) w.db.grants old),
  ground arith,
  ground arith,
)

pub granted :
    (topic_id principal : String) (permission a : Action) (by : String) (w : World) (row : Grant)
    → permission_level a ≤ permission_level permission
    → (Topics.grant topic_id principal permission by w).0 ≡ ok row
    → let after = (Topics.grant topic_id principal permission by w).1.db in
      (exists (at_least topic_id principal a) after.grants ≡ true)
      × (after.topics ≡ w.db.topics)
      × (has_topic w.db.topics topic_id ≡ true)
granted t p permission a by w row = granted-cases t p permission a by w row _ refl

-- After a successful `Revoke` no grant of the key is left, and nothing else has changed.
pub revoked :
    (topic_id principal : String) (w : World)
    → (Topics.revoke topic_id principal w).0 ≡ ok tt
    → let after = (Topics.revoke topic_id principal w).1.db in
      (exists (grant_key topic_id principal) after.grants ≡ false)
      × (after
          ≡ record w.db { grants = select (λ g. not (grant_key topic_id principal g)) w.db.grants })
unfolding Topics.revoke
revoked t p w h = (
  ground (
    arith,
    exists-select_none (λ g. not (grant_key t p g)) (grant_key t p) w.db.grants
        (λ g e. ground arith),
  ),
  ground arith,
)
