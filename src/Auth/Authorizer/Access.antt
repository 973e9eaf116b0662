-- ===== src/Auth/Authorizer/Access.antt =====
-- What `AccessibleTopics` of internal/auth/grant_authorizer.go lists, and its agreement with `Check`.
use creel.Base.{
  ℕ, String, Bool, true, false, List, [], ◌∷◌, ◌++◌, ◌≡◌, refl, ◌||◌, ◌&&◌, not, some, none, Option,
  arith, leb, ◌==◌, contains, select, exists, Memᴰ-exists, exists-Memᴰ, Distinct, append-Distinct,
  contains-append, Bool-cases, inl, inr, ◌↔◌, subst,
}
use creel.Exec.{ok}
use creel.Store.Rows.{Action, Principal, Grant, Topic}
use creel.Store.World.{World, Db}
use creel.Store.Grants.{find_topic, grant_store, grants_for_principal, topic_ids_by_owner}
use creel.Store.Schema.{topic_ids, has_topic, IsConsistent}
use creel.Auth.Authorizer.{permission_level, all_identities, add_granted, accessible_topics}
use creel.Auth.Authorizer.Decision.{Allowed, by_owner, by_grant, counts}

-- A grant of the level on the topic.
abbrev grants_level : ℕ → String → Grant → Bool
grants_level n t g = g.topic_id == t && leb n (permission_level g.permission)

-- After a topic is marked and appended, the map and the slice still hold the same topics.
same-extend :
    (x : String) (seen result : List String)
    → ((s : String) → contains seen s ≡ contains result s)
    → (s : String) → contains (x ∷ seen) s ≡ contains (result ++ x ∷ []) s
same-extend x seen result same s = ground (arith, same s, contains-append result (x ∷ []) s)

contains-add_granted :
    (n : ℕ) (t : String) (gs : List Grant) (seen result : List String)
    → ((s : String) → contains seen s ≡ contains result s)
    → contains (add_granted n gs seen result) t
      ≡ (contains result t || exists (grants_level n t) gs)
unfolding add_granted
contains-add_granted n t [] seen result same = ground arith
contains-add_granted n t (g ∷ gs) seen result same = ground (
  arith,
  same g.topic_id,
  contains-append result (g.topic_id ∷ []) t,
  contains-add_granted n t gs (g.topic_id ∷ seen) (result ++ g.topic_id ∷ [])
      (same-extend g.topic_id seen result same),
  contains-add_granted n t gs seen result same,
)

add_granted-Distinct :
    (n : ℕ) (gs : List Grant) (seen result : List String)
    → ((s : String) → contains seen s ≡ contains result s)
    → Distinct result
    → Distinct (add_granted n gs seen result)
unfolding add_granted
add_granted-Distinct n [] seen result same d = d
add_granted-Distinct n (g ∷ gs) seen result same d =
    elim (Bool-cases (leb n (permission_level g.permission) && not (contains seen g.topic_id))) [
      | inl e ↦ rw e (
          add_granted-Distinct n gs (g.topic_id ∷ seen) (result ++ g.topic_id ∷ [])
            (same-extend g.topic_id seen result same)
            (append-Distinct result g.topic_id d (ground (arith, same g.topic_id))))
      | inr e ↦ rw e (add_granted-Distinct n gs seen result same d)
    ]

abbrev owned_by : String → List Topic → List Topic
owned_by p = select λ t. t.owner == p

contains-owned :
    (p t : String) (ts : List Topic)
    → contains (topic_ids ts) t ≡ false
    → contains (topic_ids (owned_by p ts)) t ≡ false
contains-owned p t [] h = refl
contains-owned p t (r ∷ ts) h = ground (arith, contains-owned p t ts)

owned-Distinct :
    (p : String) (ts : List Topic) → Distinct (topic_ids ts) → Distinct (topic_ids (owned_by p ts))
owned-Distinct p [] d = tt
owned-Distinct p (t ∷ ts) d = ground (arith, contains-owned p t.id ts d.0, owned-Distinct p ts d.1)

abbrev owns : String → Option Topic → Bool
owns p none = false
owns p (some t) = t.owner == p

-- With distinct IDs, listing the owned topics and looking one up agree.
owned-find_topic :
    (p t : String) (ts : List Topic)
    → Distinct (topic_ids ts)
    → contains (topic_ids (owned_by p ts)) t ≡ owns p (find_topic t ts)
owned-find_topic p t [] d = refl
owned-find_topic p t (r ∷ ts) d = ground (arith, contains-owned p t ts, owned-find_topic p t ts d.1)

exists-select :
    (p : Principal) (t : String) (a : Action) (gs : List Grant)
    → exists
        (grants_level (permission_level a) t)
        (select (λ g. contains (all_identities p) g.principal) gs)
      ≡ exists (counts p t a) gs
exists-select p t a [] = refl
exists-select p t a (g ∷ gs) = ground (arith, exists-select p t a gs)

pub find_topic-has_topic :
    (t : String) (ts : List Topic)
    → has_topic ts t ≡ true
    → (r : Topic) × (find_topic t ts ≡ some r)
find_topic-has_topic t [] h = cc
find_topic-has_topic t (r ∷ ts) h = elim (Bool-cases (r.id == t)) [
  | inl e ↦ (r, ground arith)
  | inr e ↦ let (s, q) = find_topic-has_topic t ts (ground arith) in (s, ground arith)
]

owner-Allowed :
    (db : Db) (p : Principal) (t : String) (a : Action) (o : Option Topic)
    → find_topic t db.topics ≡ o
    → owns p.id o ≡ true
    → Allowed db p t a
owner-Allowed db p t a none e h = cc
owner-Allowed db p t a (some r) e h = by_owner r e (ground arith)

-- The list that `AccessibleTopics` returns, once its statements have answered.
abbrev listed : Db → Principal → Action → List String
listed db p a =
    let owned = topic_ids (owned_by p.id db.topics) in
    add_granted (permission_level a)
      (select (λ g. contains (all_identities p) g.principal) db.grants) owned owned

contains-listed :
    (db : Db) (p : Principal) (t : String) (a : Action)
    → Distinct (topic_ids db.topics)
    → contains (listed db p a) t
      ≡ (owns p.id (find_topic t db.topics) || exists (counts p t a) db.grants)
contains-listed db p t a d = ground (
  arith,
  exists-select p t a db.grants,
  owned-find_topic p.id t db.topics d,
  contains-add_granted (permission_level a) t
      (select (λ g. contains (all_identities p) g.principal) db.grants)
      (topic_ids (owned_by p.id db.topics)) (topic_ids (owned_by p.id db.topics)) (λ s. refl),
)

module _ (p : Principal) (a : Action) (w : World) (key : IsConsistent w.db) where
  listed-Allowed : (t : String) → contains (listed w.db p a) t ≡ true → Allowed w.db p t a
  listed-Allowed t h = elim (Bool-cases (owns p.id (find_topic t w.db.topics))) [
    | inl e ↦ owner-Allowed w.db p t a (find_topic t w.db.topics) refl e
    | inr e ↦
        let (g, m, c) =
          exists-Memᴰ (counts p t a) w.db.grants
            (ground (arith, contains-listed w.db p t a key.topics_key)) in
        let same : g.topic_id ≡ t = ground arith in
        let (r, f) =
          find_topic-has_topic t w.db.topics
            (subst (λ x. has_topic w.db.topics x ≡ true) same (key.grants_refer g m)) in
        by_grant r g f m (ground arith) same (ground arith)
  ]

  Allowed-listed : (t : String) → Allowed w.db p t a → contains (listed w.db p a) t ≡ true
  Allowed-listed t (by_owner r e o) =
      rw (contains-listed w.db p t a key.topics_key) (rw e (ground arith))
  Allowed-listed t (by_grant r g e m i h l) =
      rw (contains-listed w.db p t a key.topics_key)
        (ground (arith, Memᴰ-exists (counts p t a) w.db.grants g m (ground arith)))

  returned :
      (ts : List String) → (accessible_topics grant_store p a w).0 ≡ ok ts → ts ≡ listed w.db p a
  unfolding accessible_topics grants_for_principal topic_ids_by_owner
  returned ts h = ground arith

  -- Where the IDs of topics are distinct and grants refer to topics (the schema's keys), a call of
  -- `AccessibleTopics` that succeeds lists exactly the topics on which the principal is allowed the
  -- action.
  pub accessible_topics-Allowed :
      (ts : List String) (t : String)
      → (accessible_topics grant_store p a w).0 ≡ ok ts
      → (contains ts t ≡ true) ↔ Allowed w.db p t a
  accessible_topics-Allowed ts t h =
      let e = returned ts h in
      (λ c. listed-Allowed t (subst (λ x. contains x t ≡ true) e c), λ q. rw e (Allowed-listed t q))

  -- Where the IDs of topics are distinct and grants refer to topics (the schema's keys), no topic is
  -- listed twice.
  pub accessible_topics-Distinct :
      (ts : List String) → (accessible_topics grant_store p a w).0 ≡ ok ts → Distinct ts
  accessible_topics-Distinct ts h = rw (returned ts h) (
      add_granted-Distinct (permission_level a) _ _ _ (λ s. refl)
        (owned-Distinct p.id w.db.topics key.topics_key))

-- `AccessibleTopics` writes nothing.
pub db-accessible_topics :
    (p : Principal) (a : Action) (w : World) → (accessible_topics grant_store p a w).1.db ≡ w.db
unfolding accessible_topics grants_for_principal topic_ids_by_owner
db-accessible_topics p a w = ground arith
