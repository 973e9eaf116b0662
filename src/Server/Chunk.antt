-- ===== src/Server/Chunk.antt =====
-- internal/server/chunk.go: the ChunkService, with its job store set.
pub mod Guarded
use creel.Base.{
  is_empty, ℕ, ℤ, String, Bool, true, false, List, [], ◌∷◌, Option, none, some, ◌||◌, not, ◌==◌,
  if◌then◌else◌,
}
use creel.Exec.{Exec, Result, ok, err, pure, guard, ignore, ◌>>=◌, ◌>>◌}
use creel.Store.Rows.{Principal, Action, Json, Metadata, Vector, Chunk}
use creel.Store.World.{World}
use creel.Store.Chunks
use creel.Store.Chunks.{set_embedding}
use creel.Store.Chunks.Models.{get_embedding_models}
use creel.Store.Vectors
use creel.Store.Jobs
use creel.Server.Status.{
  Code, Handler, authenticate, authorize, or_internal, or_not_found, invalid_argument,
}

-- pb.ChunkInput.
pub record ChunkInput : Type 0 where
  pub content : List ℕ
  pub sequence : ℤ
  pub embedding : Vector
  pub metadata : Metadata

-- The second half of the loop's body: the chunk that is returned, and whether it lacks an embedding.
unfoldable pub embed_chunk : Chunk → Vector → Metadata → Handler (Chunk × Bool)
unfolding set_embedding
embed_chunk c [] meta = pure (c, true)
embed_chunk c (x ∷ xs) meta = do
  or_internal (Vectors.store c.id (x ∷ xs) meta)
  or_internal (Chunks.set_embedding_id c.id c.id)
  pure (set_embedding c.id c, false)

-- The loop, with the chunks so far and `needsEmbedding`.
unfoldable pub ingest_all : String → List ChunkInput → Handler (List Chunk × Bool)
ingest_all document_id [] = pure ([], false)
ingest_all document_id (i ∷ inputs) = do
  c ← or_internal (Chunks.create document_id i.content i.sequence i.metadata)
  (c', missing) ← embed_chunk c i.embedding i.metadata
  (cs, needs_embedding) ← ingest_all document_id inputs
  pure (c' ∷ cs, missing || needs_embedding)

unfoldable pub enqueue_embedding : String → Bool → Handler (Unit {0})
enqueue_embedding document_id true = ignore (Jobs.create document_id "embedding")
enqueue_embedding document_id false = pure tt

unfoldable pub ingest_chunks : Option Principal → String → List ChunkInput → Handler (List Chunk)
ingest_chunks p document_id inputs = do
  caller ← authenticate p
  guard (not (document_id == "" || is_empty inputs)) invalid_argument
  topic_id ← or_not_found (Chunks.document_topic_id document_id)
  authorize caller topic_id Action.write
  (chunks, needs_embedding) ← ingest_all document_id inputs
  enqueue_embedding document_id needs_embedding
  pure chunks

-- Without an embedding the source does not ask for its model; an error is ignored.
unfoldable pub model_of : Chunk → Handler (Option Json)
unfolding get_embedding_models
model_of c w = elim c.embedding_id [
  | none ↦ (ok none, w)
  | some e ↦ elim (get_embedding_models (c.id ∷ []) w).0 [
    | ok models ↦ (ok (models c.id), (get_embedding_models (c.id ∷ []) w).1)
    | err x ↦ (ok none, (get_embedding_models (c.id ∷ []) w).1)
  ]
]

unfoldable pub get_chunk : Option Principal → String → Handler (Chunk × Option Json)
get_chunk p id = do
  caller ← authenticate p
  guard (not (id == "")) invalid_argument
  c ← or_not_found (Chunks.get id)
  topic_id ← or_internal (Chunks.document_topic_id c.document_id)
  authorize caller topic_id Action.read
  model ← model_of c
  pure (c, model)

unfoldable pub delete_chunk : Option Principal → String → Handler (Unit {0})
delete_chunk p id = do
  caller ← authenticate p
  guard (not (id == "")) invalid_argument
  c ← or_not_found (Chunks.get id)
  topic_id ← or_internal (Chunks.document_topic_id c.document_id)
  authorize caller topic_id Action.admin
  or_internal (Vectors.delete id)
  or_internal (Chunks.delete id)
