-- ===== src/Server/Topic/Sharing.antt =====
-- `GrantAccess` and `RevokeAccess` of internal/server/topic.go against the authorizer's `Check`.
use creel.Base.{
  String, true, false, [], ◌∷◌, ◌≡◌, ◌≢◌, refl, Option, none, some, arith, contains, exists,
  Memᴰ-exists, subst, sym, ◌∙◌,
}
use creel.Exec.{ok}
use creel.Store.Rows.{Principal, Action, Topic}
use creel.Store.World.{World, Db}
use creel.Store.Grants.{grant_store, find_topic}
use creel.Store.Topics
use creel.Store.Topics.Keys.{revoked}
use creel.Store.Topics.{grant_key}
use creel.Auth.Authorizer.{all_identities, check}
use creel.Auth.Authorizer.Decision.{Allowed, by_owner, by_grant, check_sound, db-check}
use creel.Server.Topic.{revoke_access}

module _ (topic_id principal : String) (w : World) where
  revoke_access-runs :
      (p : Option Principal)
      → (revoke_access p topic_id principal w).0 ≡ ok tt
      → (v : World) × (v.db ≡ w.db)
        × ((Topics.revoke topic_id principal v).0 ≡ ok tt)
        × ((revoke_access p topic_id principal w).1 ≡ (Topics.revoke topic_id principal v).1)
  unfolding revoke_access
  revoke_access-runs none h = ground arith
  revoke_access-runs (some q) h = (
    (check grant_store q topic_id Action.admin w).1,
    db-check q topic_id Action.admin w,
    ground arith,
    ground arith,
  )

unkeyed-denied :
    (db : Db) (topic_id principal : String) (q : Principal) (a : Action)
    → exists (grant_key topic_id principal) db.grants ≡ false
    → q.id ≡ principal
    → q.groups ≡ []
    → ((t : Topic) → find_topic topic_id db.topics ≡ some t → t.owner ≢ principal)
    → ¬ Allowed db q topic_id a
unkeyed-denied db t p q a x i n o (by_owner r e w) = o r e (w ∙ i)
unkeyed-denied db t p q a x i n o (by_grant r g e m c s l) =
    let only : contains (q.id ∷ []) g.principal ≡ true =
      subst (λ gs. contains (q.id ∷ gs) g.principal ≡ true) n (unfold all_identities in c) in
    let hit : grant_key t p g ≡ true = ground arith in
    ground (arith, Memᴰ-exists (grant_key t p) db.grants g m hit)

module _ (p : Option Principal) (topic_id principal : String) (w : World) where
  -- After a successful `RevokeAccess`, whatever statements fail, `Check` denies every action to the
  -- principal if it has no groups and does not own the topic.
  pub check-revoke_access :
      (q : Principal) (a : Action)
      → (revoke_access p topic_id principal w).0 ≡ ok tt
      → q.id ≡ principal
      → q.groups ≡ []
      → ((t : Topic) → find_topic topic_id w.db.topics ≡ some t → t.owner ≢ principal)
      → (check grant_store q topic_id a (revoke_access p topic_id principal w).1).0 ≢ ok tt
  check-revoke_access q a h i n o c =
      let (v, d, r, e) = revoke_access-runs topic_id principal w p h in
      let (x, s) = revoked topic_id principal v r in
      let same : (revoke_access p topic_id principal w).1.db.topics ≡ w.db.topics =
        rw e (rw s (rw d refl)) in
      unkeyed-denied (revoke_access p topic_id principal w).1.db topic_id principal q a (rw e x) i n
        (subst (λ ts. (t : Topic) → find_topic topic_id ts ≡ some t → t.owner ≢ principal)
          (sym same) o)
        (check_sound q topic_id a _ c)
