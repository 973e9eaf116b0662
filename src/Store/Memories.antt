-- ===== src/Store/Memories.antt =====
-- internal/store/memory.go: the table of memories.
use creel.Base.{
  ℕ, String, Bool, true, false, List, [], ◌∷◌, ◌++◌, map, Option, none, some, ◌&&◌, ◌||◌, leb, ◌==◌,
  contains, select, first, exists, update, if◌then◌else◌,
}
use creel.Exec.{Exec, Result, ok, err}
use creel.Store.Rows.{Memory, MemoryStatus, Metadata, invalidated}
use creel.Store.World.{World, Db, Error, statement, row_or}

-- The columns of a new memory that are not defaults.
pub record NewMemory : Type 0 where
  pub principal : String
  pub scope : String
  pub content : String
  pub subject : Option String
  pub predicate : Option String
  pub object : Option String
  pub source_chunk_id : Option String
  pub metadata : Metadata

unfoldable pub new_memory : World → NewMemory → Memory
new_memory w m = record {
  id = w.env.new_id w.tick;
  principal = m.principal;
  scope = m.scope;
  content = m.content;
  embedding_id = none;
  subject = m.subject;
  predicate = m.predicate;
  object = m.object;
  source_chunk_id = m.source_chunk_id;
  status = MemoryStatus.active;
  invalidated_at = none;
  metadata = m.metadata;
  created_at = w.env.now w.tick;
  updated_at = w.env.now w.tick;
}

-- A source chunk that is named must be there.
abbrev source_ok : Db → Option String → Bool
source_ok db none = true
source_ok db (some id) = exists (λ c. c.id == id) db.chunks

-- MemoryStore.Create.
unfoldable pub create : NewMemory → Exec World Error Memory
unfolding statement
create m = statement "inserting memory" λ w.
    if source_ok w.db m.source_chunk_id
    then (ok (new_memory w m), record w.db { memories = w.db.memories ++ new_memory w m ∷ [] })
    else (err "inserting memory", w.db)

abbrev pub find_memory : String → List Memory → Option Memory
find_memory id = first (λ m. m.id == id)

-- MemoryStore.Get.
unfoldable pub get : String → Exec World Error Memory
unfolding statement
get id =
    statement "querying memory"
      λ w. (row_or "memory not found" (find_memory id w.db.memories), w.db)

abbrev pub is_active : MemoryStatus → Bool
is_active MemoryStatus.active = true
is_active invalidated = false

-- ORDER BY created_at.
abbrev insert_memory : Memory → List Memory → List Memory
insert_memory m [] = m ∷ []
insert_memory m (n ∷ ns) =
    let rest = insert_memory m ns in if leb m.created_at n.created_at then m ∷ n ∷ ns else n ∷ rest

unfoldable pub memories_by_created_at : List Memory → List Memory
memories_by_created_at [] = []
memories_by_created_at (m ∷ ms) = insert_memory m (memories_by_created_at ms)

-- MemoryStore.GetByScope.
unfoldable pub get_by_scope : String → String → Exec World Error (List Memory)
unfolding statement memories_by_created_at
get_by_scope principal scope = statement "querying memories by scope" λ w. (
  ok (
      memories_by_created_at (
        select (λ m. m.principal == principal && (m.scope == scope && is_active m.status))
          w.db.memories)),
  w.db,
)

abbrev pub in_scopes : List String → Memory → Bool
in_scopes [] m = true
in_scopes (s ∷ ss) m = contains (s ∷ ss) m.scope

-- MemoryStore.GetByScopes.
unfoldable pub get_by_scopes : String → List String → Exec World Error (List Memory)
unfolding statement memories_by_created_at
get_by_scopes principal scopes = statement "querying memories by scopes" λ w. (
  ok (
      memories_by_created_at (
        select (λ m. m.principal == principal && (in_scopes scopes m && is_active m.status))
          w.db.memories)),
  w.db,
)

unfoldable pub set_memory : String → Metadata → ℕ → Memory → Memory
set_memory content metadata now m = record m {
  content = content;
  metadata = metadata;
  updated_at = now;
}

abbrev pub updated_row : Db → String → (Memory → Memory) → Option Memory → Result Error Memory × Db
updated_row db id f none = (err "memory not found", db)
updated_row db id f (some m) =
    (ok (f m), record db { memories = update (λ n. n.id == id) f db.memories })

-- MemoryStore.Update.
unfoldable pub update_memory : String → String → Metadata → Exec World Error Memory
unfolding statement set_memory
update_memory id content metadata = statement "updating memory" λ w.
    updated_row w.db id (set_memory content metadata (w.env.now w.tick))
      (find_memory id w.db.memories)

unfoldable pub set_invalidated : ℕ → Memory → Memory
set_invalidated now m = record m {
  status = invalidated;
  invalidated_at = some now;
  updated_at = now;
}

-- MemoryStore.Invalidate.
unfoldable pub invalidate : String → Exec World Error (Unit {0})
unfolding statement set_invalidated
invalidate id = statement "invalidating memory" λ w.
    if exists (λ m. m.id == id) w.db.memories
    then (
      ok tt,
      record w.db {
        memories = update (λ m. m.id == id) (set_invalidated (w.env.now w.tick)) w.db.memories;
      },
    )
    else (err "memory not found", w.db)

-- MemoryStore.ListByScope.
unfoldable pub list_by_scope : String → String → Bool → Exec World Error (List Memory)
unfolding statement memories_by_created_at
list_by_scope principal scope include_invalidated = statement "listing memories" λ w. (
  ok (
      memories_by_created_at (
        select
          (λ m.
            m.principal == principal
            && (m.scope == scope && (include_invalidated || is_active m.status)))
          w.db.memories)),
  w.db,
)

-- SELECT DISTINCT scope … ORDER BY scope, in the database's order of texts.
abbrev insert_scope : (String → String → Bool) → String → List String → List String
insert_scope le s [] = s ∷ []
insert_scope le s (t ∷ ts) =
    let rest = insert_scope le s ts in
    if s == t then t ∷ ts else if le s t then s ∷ t ∷ ts else t ∷ rest

unfoldable pub distinct_scopes : (String → String → Bool) → List String → List String
distinct_scopes le [] = []
distinct_scopes le (s ∷ ss) = insert_scope le s (distinct_scopes le ss)

-- MemoryStore.ListScopes.
unfoldable pub list_scopes : (String → String → Bool) → String → Exec World Error (List String)
unfolding statement distinct_scopes
list_scopes le principal = statement "listing scopes" λ w. (
  ok (
      distinct_scopes le
        (map (λ m. m.scope) (select (λ m. m.principal == principal) w.db.memories))),
  w.db,
)

-- MemoryStore.GetMultiple.
unfoldable pub get_multiple : List String → Exec World Error (String → Option Memory)
unfolding statement
get_multiple [] w = (ok (λ id. none), w)
get_multiple (i ∷ ids) w =
    statement "querying memories"
      (λ v. (ok (λ id. if contains (i ∷ ids) id then find_memory id v.db.memories else none), v.db))
      w
