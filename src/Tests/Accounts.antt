-- ===== src/Tests/Accounts.antt =====
-- Tests and examples of the keys of system accounts and of the interceptor.
use creel.Base.{
  ℕ, pos, String, true, List, [], ◌∷◌, Option, none, some, ◌≡◌, refl, Memᴰ, string_dec, Distinct,
  if◌then◌else◌,
}
use creel.Exec.{ok, err, pure}
use creel.Store.Rows.{Principal, SystemAccount, SystemAccountKey, KeyStatus}
use creel.Store.World.{World, statement}
use creel.Store.Jobs.{begin, commit, rollback_on_error}
use creel.Store.Accounts.{
  NewKey, rotate_key, revoke_key, insert_key, retire_keys, resolve, find_account, system_principal,
  set_grace, set_revoked, active_of,
}
use creel.Store.Accounts.Found.{hashes}
use creel.Store.Accounts.Lifecycle.{in_grace, rotate_key_supersedes}
use creel.Auth.ApiKey.{PrincipalMap, is_api_key, after_text}
use creel.Auth.Middleware.{intercept, extract_bearer_token}
use creel.Auth.Middleware.Admission.{validator, Admission, intercept_admits}
use creel.Auth.Middleware.Revoked.{revoked_key_refused}
use creel.Server.Status.{Handler, Code}
use creel.Tests.Data.{tables, world}

abbrev robot : SystemAccount
robot = record {
  id = "a1";
  name = "robot";
  description = "";
  principal = "system:robot";
  created_at = 0;
}

abbrev first_key : SystemAccountKey
first_key = record {
  id = "k1";
  account_id = "a1";
  key_hash = "creel_ak_1";
  key_prefix = "creel_ak_1";
  status = KeyStatus.active;
  grace_expires_at = none;
  created_at = 0;
  revoked_at = none;
}

abbrev keyed : World
keyed = record world { db = record tables { accounts = robot ∷ []; account_keys = first_key ∷ [] } }

abbrev second_key : NewKey
second_key = record { raw = "creel_ak_2"; hash = "creel_ak_2" }

one_hash : Distinct (hashes keyed.db.account_keys)
one_hash = (refl, tt)

abbrev rotated : World
rotated = (rotate_key 7 second_key "a1" (pos 5) keyed).1

rotates : (rotate_key 7 second_key "a1" (pos 5) keyed).0 ≡ ok "creel_ak_2"
unfolding rotate_key rollback_on_error begin commit statement insert_key retire_keys set_grace
    set_revoked string_dec
rotates = refl

is_active_first : active_of "a1" first_key ≡ true
unfolding string_dec
is_active_first = refl

-- At time 9 the old key still counts.
rotate_key_supersedes_example :
    (a : SystemAccount) × (find_account "a1" keyed.db.accounts ≡ some a)
    × (resolve 9 "creel_ak_2" rotated.db ≡ some (system_principal a))
    × (resolve 9 "creel_ak_1" rotated.db
        ≡ (if in_grace 7 (pos 5) 9 then some (system_principal a) else none))
rotate_key_supersedes_example =
    rotate_key_supersedes 7 second_key "a1" (pos 5) keyed "creel_ak_2" rotates one_hash first_key 9
      (Memᴰ.head refl) is_active_first

abbrev created : SystemAccount
created = record {
  id = "nnew";
  name = "robot";
  description = "";
  principal = "system:robot";
  created_at = 1;
}

abbrev same_text : String → String
same_text t = t

abbrev no_static_keys : PrincipalMap
no_static_keys = []

abbrev answers_one : Option Principal → Handler ℕ
answers_one p = pure 1

abbrev list_topics : String
list_topics = "/creel.v1.TopicService/ListTopics"

abbrev bearer_token : Option (List String)
bearer_token = some ("Bearer creel_ak_1" ∷ [])

intercept_admits_example :
    Admission same_text no_static_keys 0 [] bearer_token answers_one keyed.db (
      intercept
        (validator same_text no_static_keys 0)
        []
        list_topics
        bearer_token
        answers_one
        keyed)
unfolding string_dec
intercept_admits_example =
    intercept_admits same_text no_static_keys 0 [] list_topics bearer_token answers_one keyed refl

abbrev revoked_world : World
revoked_world = (revoke_key "a1" keyed).1

revokes : (revoke_key "a1" keyed).0 ≡ ok tt
unfolding revoke_key statement
revokes = refl

revoked_key_refused_example :
    (e : Code) × ((intercept
        (validator same_text no_static_keys 0)
        []
        list_topics
        bearer_token
        answers_one
        revoked_world).0
      ≡ err e)
    × ((intercept
          (validator same_text no_static_keys 0)
          []
          list_topics
          bearer_token
          answers_one
          revoked_world).1.db
        ≡ revoked_world.db)
unfolding is_api_key extract_bearer_token after_text string_dec
revoked_key_refused_example =
    revoked_key_refused same_text no_static_keys 0 [] "a1" keyed revokes one_hash first_key
      (Memᴰ.head refl) refl "creel_ak_1" refl refl refl list_topics bearer_token answers_one
      revoked_world refl (λ u. refl) refl refl
