-- ===== src/Tests/Access.antt =====
-- Tests and examples of internal/auth and of the sharing of topics.
use creel.Base.{
  String, true, false, [], ◌∷◌, Option, some, none, ◌≡◌, ◌≢◌, refl, ◌↔◌, Memᴰ, contains, string_dec,
  Distinct, arith, ap, ◌∙◌, ◌==◌,
}
use creel.Exec.{ok}
use creel.Store.Rows.{Action, Grant, Topic}
use creel.Store.World.{World, statement}
use creel.Store.Schema.{has_topic, IsConsistent}
use creel.Store.Grants.{
  find_topic, grant_store, grants_for_principal, topic_owner, topic_ids_by_owner,
}
use creel.Store.Topics
use creel.Auth.Authorizer.{
  check, accessible_topics, permission_level, all_identities, some_grant, add_granted,
}
use creel.Auth.Authorizer.Decision.{Allowed, by_grant, check_sound, check_complete}
use creel.Auth.Authorizer.Access.{accessible_topics-Allowed, accessible_topics-Distinct}
use creel.Server.Topic.{grant_access, revoke_access, Permission, permission_to_action}
use creel.Server.Topic.Sharing.{check-revoke_access}
use creel.Tests.Data.{alice, bob, carol, topic, engineering_writes, fresh_id, tables, world}

bob_writes : (check grant_store bob "t1" Action.write world).0 ≡ ok tt
unfolding check topic_owner grants_for_principal statement all_identities some_grant
    permission_level string_dec
bob_writes = refl

bob_does_not_administer : (check grant_store bob "t1" Action.admin world).0 ≢ ok tt
unfolding check topic_owner grants_for_principal statement all_identities some_grant
    permission_level string_dec
bob_does_not_administer h = cc

check_sound_example : Allowed tables bob "t1" Action.write
check_sound_example = check_sound bob "t1" Action.write world bob_writes

bob_may_read : Allowed tables bob "t1" Action.read
unfolding all_identities permission_level string_dec
bob_may_read =
    by_grant (topic "t1" "alice") engineering_writes refl (Memᴰ.head refl) refl refl (omega arith)

check_complete_example : (check grant_store bob "t1" Action.read world).0 ≡ ok tt
check_complete_example = check_complete bob "t1" Action.read world refl refl bob_may_read

grants_refer : (g : Grant) → Memᴰ g tables.grants → has_topic tables.topics g.topic_id ≡ true
unfolding string_dec
grants_refer g (Memᴰ.head e) = rw e refl
grants_refer g (Memᴰ.tail m) = elim m [ ]

pub tables-IsConsistent : IsConsistent tables
unfolding string_dec
tables-IsConsistent = record { topics_key = (refl, (refl, tt)); grants_refer = grants_refer }

bob_lists : (accessible_topics grant_store bob Action.read world).0 ≡ ok ("t1" ∷ [])
unfolding accessible_topics topic_ids_by_owner grants_for_principal statement all_identities
    add_granted permission_level string_dec
bob_lists = refl

accessible_topics-Allowed_example :
    (contains ("t1" ∷ []) "t2" ≡ true) ↔ Allowed tables bob "t2" Action.read
accessible_topics-Allowed_example =
    accessible_topics-Allowed bob Action.read world tables-IsConsistent ("t1" ∷ []) "t2" bob_lists

accessible_topics-Distinct_example : Distinct ("t1" ∷ [])
accessible_topics-Distinct_example =
    accessible_topics-Distinct bob Action.read world tables-IsConsistent ("t1" ∷ []) bob_lists

abbrev alice_grants : World
alice_grants = (grant_access (some alice) "t1" "carol" Permission.admin world).1

abbrev new_grant : Grant
new_grant = record {
  id = fresh_id 1;
  topic_id = "t1";
  principal = "carol";
  permission = Action.admin;
  granted_by = "alice";
  created_at = 1;
}

abbrev alice_revokes : World
alice_revokes = (revoke_access (some alice) "t1" "carol" alice_grants).1

revoked_row : (revoke_access (some alice) "t1" "carol" alice_grants).0 ≡ ok tt
unfolding grant_access revoke_access check topic_owner statement Topics.grant Topics.revoke
    permission_to_action string_dec
revoked_row = refl

abbrev owner_or : Option Topic → String
owner_or none = ""
owner_or (some t) = t.owner

carol_owns_nothing :
    (t : Topic) → find_topic "t1" alice_grants.db.topics ≡ some t → t.owner ≢ "carol"
unfolding grant_access check topic_owner statement Topics.grant permission_to_action string_dec
carol_owns_nothing t h e =
    let differ : true ≡ false = ap (λ s. s == "alice") (ap owner_or h ∙ e) in cc

check-revoke_access_example : (check grant_store carol "t1" Action.read alice_revokes).0 ≢ ok tt
check-revoke_access_example =
    check-revoke_access (some alice) "t1" "carol" alice_grants carol Action.read revoked_row refl
      refl carol_owns_nothing
