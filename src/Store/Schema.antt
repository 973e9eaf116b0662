-- ===== src/Store/Schema.antt =====
-- What the constraints of migrations/*.sql promise of the tables: primary keys and foreign keys.
use creel.Base.{String, Bool, true, List, ◌≡◌, map, exists, ◌==◌, Memᴰ, Distinct}
use creel.Store.Rows.{Topic, Grant}
use creel.Store.World.{Db}

abbrev pub topic_ids : List Topic → List String
topic_ids = map λ t. t.id

-- A row with this primary key is in the table of topics.
abbrev pub has_topic : List Topic → String → Bool
has_topic ts id = exists (λ t. t.id == id) ts

pub record IsConsistent (db : Db) : Type 0 where
  pub topics_key : Distinct (topic_ids db.topics)
  pub grants_refer : (g : Grant) → Memᴰ g db.grants → has_topic db.topics g.topic_id ≡ true
