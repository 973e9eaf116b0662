-- ===== src/Auth/Authorizer/Decision.antt =====
-- What `Check` of internal/auth/grant_authorizer.go decides, over the store of internal/store/grant.go.
use creel.Base.{
  String, Bool, true, false, List, [], ◌∷◌, ◌≡◌, refl, ◌≤◌, ◌||◌, ◌&&◌, Memᴰ, Option, none, some,
  arith, leb, ◌==◌, contains, select, exists, Memᴰ-exists, exists-Memᴰ, suc, eq_of_==, Bool-cases,
  inl, inr,
}
use creel.Exec.{ok}
use creel.Store.Rows.{Action, Principal, Grant, Topic}
use creel.Store.World.{World, Db}
use creel.Store.Grants.{find_topic, grant_store, grants_for_principal, topic_owner}
use creel.Auth.Authorizer.{permission_level, all_identities, some_grant, check}

-- A principal owns the topic, or it or one of its groups holds a grant of at least the level.
pub data Allowed (db : Db) (p : Principal) (topic_id : String) (a : Action) : Type 0 where
  by_owner :
      (t : Topic)
      → find_topic topic_id db.topics ≡ some t
      → t.owner ≡ p.id
      → Allowed db p topic_id a
  by_grant :
      (t : Topic) (g : Grant)
      → find_topic topic_id db.topics ≡ some t
      → Memᴰ g db.grants
      → contains (all_identities p) g.principal ≡ true
      → g.topic_id ≡ topic_id
      → permission_level a ≤ permission_level g.permission
      → Allowed db p topic_id a

-- A grant that counts for the principal on the topic at the action's level.
abbrev pub counts : Principal → String → Action → Grant → Bool
counts p topic_id a g =
    contains (all_identities p) g.principal
    && (g.topic_id == topic_id && leb (permission_level a) (permission_level g.permission))

some_grant-select :
    (p : Principal) (t : String) (a : Action) (gs : List Grant)
    → some_grant t (permission_level a) (select (λ g. contains (all_identities p) g.principal) gs)
      ≡ exists (counts p t a) gs
unfolding some_grant
some_grant-select p t a [] = refl
some_grant-select p t a (g ∷ gs) = ground (arith, some_grant-select p t a gs)

-- What `Check` decides on the tables, once its statements have answered.
abbrev pub decides : Db → Principal → String → Action → Option Topic → Bool
decides db p t a none = false
decides db p t a (some r) = r.owner == p.id || exists (counts p t a) db.grants

Allowed-decides :
    (db : Db) (p : Principal) (t : String) (a : Action)
    → Allowed db p t a
    → decides db p t a (find_topic t db.topics) ≡ true
Allowed-decides db p t a (by_owner r e o) = rw e (ground arith)
Allowed-decides db p t a (by_grant r g e m i h l) =
    rw e (ground (arith, Memᴰ-exists (counts p t a) db.grants g m (ground arith)))

decides-Allowed :
    (db : Db) (p : Principal) (t : String) (a : Action) (o : Option Topic)
    → find_topic t db.topics ≡ o
    → decides db p t a o ≡ true
    → Allowed db p t a
decides-Allowed db p t a none e h = cc
decides-Allowed db p t a (some r) e h = elim (Bool-cases (r.owner == p.id)) [
  | inl q ↦ by_owner r e (eq_of_== r.owner p.id q)
  | inr q ↦
      let (g, m, c) = exists-Memᴰ (counts p t a) db.grants (ground arith) in
      by_grant r g e m (ground arith) (ground arith) (ground arith)
]

module _ (p : Principal) (t : String) (a : Action) (w : World) where
  -- Whatever statements fail, `Check` succeeds only for a principal that is allowed.
  pub check_sound : (check grant_store p t a w).0 ≡ ok tt → Allowed w.db p t a
  unfolding check grants_for_principal topic_owner
  check_sound h =
      decides-Allowed w.db p t a (find_topic t w.db.topics) refl
        (ground (arith, some_grant-select p t a w.db.grants))

  -- If its two statements succeed, `Check` succeeds for every principal that is allowed.
  pub check_complete :
      w.env.fails w.tick ≡ false
      → w.env.fails (suc w.tick) ≡ false
      → Allowed w.db p t a
      → (check grant_store p t a w).0 ≡ ok tt
  unfolding check grants_for_principal topic_owner
  check_complete f g h =
      ground (arith, some_grant-select p t a w.db.grants, Allowed-decides w.db p t a h)

  -- `Check` writes nothing.
  pub db-check : (check grant_store p t a w).1.db ≡ w.db
  unfolding check grants_for_principal topic_owner
  db-check = ground arith

-- Being allowed an action implies being allowed every lower one.
pub Allowed-mono :
    (db : Db) (p : Principal) (t : String) (a b : Action)
    → permission_level b ≤ permission_level a
    → Allowed db p t a
    → Allowed db p t b
Allowed-mono db p t a b l (by_owner r e o) = by_owner r e o
Allowed-mono db p t a b l (by_grant r g e m i h k) = by_grant r g e m i h (omega arith)
