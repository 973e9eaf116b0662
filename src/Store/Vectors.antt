-- ===== src/Store/Vectors.antt =====
-- internal/vector/pgvector/pgvector.go: the vector backend over the table of embeddings. A vector is
-- what its column holds: the conversion to float32 comes before.
pub mod Similar
use creel.Base.{
  String, Bool, List, [], ◌∷◌, ◌++◌, not, ◌==◌, contains, select, exists, update, if◌then◌else◌,
}
use creel.Exec.{Exec, Result, ok, err, pure, ◌>>=◌, ◌>>◌}
use creel.Store.Rows.{Embedding, Metadata, Vector}
use creel.Store.World.{World, Error, statement}

abbrev pub stored : String → Vector → Metadata → Embedding → Embedding
stored id embedding metadata e = record e { embedding = embedding; metadata = metadata }

-- Backend.Store: INSERT … ON CONFLICT (chunk_id) DO UPDATE; the chunk must be there.
unfoldable pub store : String → Vector → Metadata → Exec World Error (Unit {0})
unfolding statement
store id embedding metadata = statement "storing embedding" λ w.
    if exists (λ c. c.id == id) w.db.chunks
    then (
      ok tt,
      record w.db {
        embeddings =
            if exists (λ e. e.chunk_id == id) w.db.embeddings
            then update (λ e. e.chunk_id == id) (stored id embedding metadata) w.db.embeddings
            else w.db.embeddings
              ++ record { chunk_id = id; embedding = embedding; metadata = metadata } ∷ [];
      },
    )
    else (err "storing embedding", w.db)

-- Backend.Delete.
unfoldable pub delete : String → Exec World Error (Unit {0})
unfolding statement
delete id =
    statement "deleting embedding" λ w.
      (ok tt, record w.db { embeddings = select (λ e. not (e.chunk_id == id)) w.db.embeddings })

-- Backend.DeleteBatch.
unfoldable pub delete_batch : List String → Exec World Error (Unit {0})
unfolding statement
delete_batch ids = statement "batch deleting embeddings" λ w. (
  ok tt,
  record w.db { embeddings = select (λ e. not (contains ids e.chunk_id)) w.db.embeddings },
)

-- vector.StoreItem.
pub record StoreItem : Type 0 where
  pub id : String
  pub embedding : Vector
  pub metadata : Metadata

-- Backend.StoreBatch: one statement for each item; an error ends the loop.
unfoldable pub store_batch : List StoreItem → Exec World Error (Unit {0})
unfolding store
store_batch [] = pure tt
store_batch (i ∷ items) = store i.id i.embedding i.metadata >> store_batch items
