-- ===== src/Worker/Embedding.antt =====
-- internal/worker/embedding.go: the worker that embeds a document's chunks. The provider is a
-- parameter; Worker/Providers has what the OpenAI provider makes of an answer.
use creel.Base.{
  ℕ, pos, String, Bool, true, false, List, [], ◌∷◌, none, some, eqb, ◌==◌, length, map, select,
  is_empty, if◌then◌else◌,
}
use creel.Exec.{Exec, Result, pure, or_fail, ◌>>=◌, ◌>>◌}
use creel.Store.Rows.{ProcessingJob, Chunk, Metadata, Vector, str, put, ready}
use creel.Store.World.{World, Error}
use creel.Store.Documents
use creel.Store.Chunks
use creel.Store.Vectors
use creel.Store.Vectors.{StoreItem}
use creel.Worker.Status.{guard_document, or_fail_document, result}

-- The interface EmbeddingProvider.
pub record Provider : Type 0 where
  pub embed : List (List ℕ) → Result Error (List Vector)
  pub model : String

abbrev pub needs_embedding : Chunk → Bool
needs_embedding c = elim c.embedding_id [ none ↦ true | some _ ↦ false ]

-- The metadata of a stored vector names the model, if the provider has a name for it.
unfoldable pub with_model : String → Metadata → Metadata
with_model model m = if model == "" then m else put "embedding_model" (str model) m

-- The loop that builds the batch; the lists are as long as each other.
unfoldable pub store_items : String → List Chunk → List Vector → List StoreItem
unfolding with_model
store_items model (c ∷ cs) (v ∷ vs) =
    record { id = c.id; embedding = v; metadata = with_model model c.metadata }
    ∷ store_items model cs vs
store_items model _ _ = []

-- The loop that notes the embeddings in the chunks.
unfoldable pub set_embedding_ids : String → List Chunk → Exec World Error (Unit {0})
set_embedding_ids id [] = pure tt
set_embedding_ids id (c ∷ cs) =
    or_fail_document (Chunks.set_embedding_id c.id c.id) id
      "setting document status to failed after embedding ID update error" "setting embedding ID"
    >> set_embedding_ids id cs

abbrev pub mark_ready : String → Exec World Error (Unit {0})
mark_ready id = or_fail (Documents.update_status id ready) "setting document status to ready"

unfoldable pub embed_chunks : Provider → String → List Chunk → Exec World Error (Unit {0})
unfolding store_items
embed_chunks provider id chunks = do
  embeddings ←
      or_fail_document (result (provider.embed (map (λ c. c.content) chunks))) id
        "setting document status to failed after embedding error" "computing embeddings"
  guard_document (eqb (length embeddings) (length chunks)) id
      "setting document status to failed after dimension mismatch" "embedding count mismatch"
  or_fail_document (Vectors.store_batch (store_items provider.model chunks embeddings)) id
      "setting document status to failed after vector store error" "storing embeddings"
  set_embedding_ids id chunks
  mark_ready id

-- EmbeddingWorker.Process.
unfoldable pub process : Provider → ProcessingJob → Exec World Error (Unit {0})
process provider job = do
  let id = job.document_id
  chunks ←
      or_fail_document (Chunks.list_by_document id (pos 0) none) id
        "setting document status to failed after chunk listing error" "listing chunks"
  let needed = select needs_embedding chunks
  if is_empty needed then mark_ready id else embed_chunks provider id needed
