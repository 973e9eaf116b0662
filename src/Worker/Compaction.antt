-- ===== src/Worker/Compaction.antt =====
-- internal/worker/compaction.go: an LLM sums up chunks of a document, and the summary replaces them.
pub mod Still
pub mod Kept
use creel.Base.{
  ℕ, pos, ℤ, String, Bool, true, false, List, [], ◌∷◌, Option, none, some, ◌&&◌, not, ltb, ◌==◌,
  length, map, is_empty, if◌then◌else◌,
}
use creel.Exec.{Exec, Result, ok, err, pure, guard, or_fail, ◌>>=◌, ◌>>◌}
use creel.Store.Rows.{
  Json, JsonItems, null, bool, num, str, arr, obj, nil, cons, ProcessingJob, Chunk, Metadata,
  Vector, lookup,
}
use creel.Store.World.{World, Error}
use creel.Store.Chunks
use creel.Store.Chunks.{is_active}
use creel.Store.Links
use creel.Store.Vectors
use creel.Store.Compactions
use creel.Worker.Text.{trim_space}
use creel.Worker.Status.{result}
use creel.Worker.Embedding.{Provider, with_model}

-- llm.Provider on the prompt for some contents.
abbrev pub Summarize : Type 0
Summarize = List (List ℕ) → Result Error (List ℕ)

-- The strings of a JSON array.
unfoldable pub string_items : JsonItems → List String
string_items nil = []
string_items (cons (str s) items) = s ∷ string_items items
string_items (cons _ items) = string_items items

abbrev ids_in : Option Json → List String
ids_in (some (arr items)) = string_items items
ids_in _ = []

-- `job.Progress["chunk_ids"]`.
unfoldable pub requested_ids : Metadata → List String
unfolding string_items
requested_ids progress = ids_in (lookup "chunk_ids" progress)

abbrev keep_active : Option Chunk → List Chunk → List Chunk
keep_active none cs = cs
keep_active (some c) cs = if is_active c.status then c ∷ cs else cs

-- The chunks of a map that are active, in the order asked for.
unfoldable pub active_of : (String → Option Chunk) → List String → List Chunk
active_of chunk_map [] = []
active_of chunk_map (id ∷ ids) = keep_active (chunk_map id) (active_of chunk_map ids)

unfoldable pub chunks_to_compact : ProcessingJob → Exec World Error (List Chunk)
unfolding requested_ids active_of
chunks_to_compact job =
    if is_empty (requested_ids job.progress)
    then or_fail (Chunks.list_by_document job.document_id (pos 0) none) "listing document chunks"
    else (do
      chunk_map ←
          or_fail (Chunks.get_multiple (requested_ids job.progress)) "fetching specified chunks"
      pure (active_of chunk_map (requested_ids job.progress)))

-- The metadata of the summary.
abbrev summary_meta : List Chunk → Metadata
summary_meta chunks = ("compaction_source_count", num (length chunks)) ∷ []

-- The provider may give no vector; then none is stored.
unfoldable pub store_summary :
    String → String → Metadata → List Vector → Exec World Error (Unit {0})
unfolding with_model
store_summary model id meta [] = pure tt
store_summary model id meta (v ∷ _) = do
  or_fail (Vectors.store id v (with_model model meta)) "storing summary embedding"
  or_fail (Chunks.set_embedding_id id id) "setting embedding ID"

unfoldable pub transfer_all : List String → String → Exec World Error (Unit {0})
transfer_all [] summary_id = pure tt
transfer_all (id ∷ ids) summary_id = do
  or_fail (Links.transfer_links id summary_id) "transferring links from chunk"
  transfer_all ids summary_id

abbrev requester : Option Json → String
requester (some (str s)) = s
requester _ = "system:compaction-worker"

abbrev pub chunk_ids : List Chunk → List String
chunk_ids = map (λ c. c.id)

-- `Process` once it knows the chunks, of which there are at least two.
unfoldable pub compact :
    Summarize → Provider → ProcessingJob → List Chunk → Exec World Error (Unit {0})
unfolding trim_space
compact summarize provider job chunks = do
  let source_ids = chunk_ids chunks
  answer ← or_fail (result (summarize (map (λ c. c.content) chunks))) "LLM compaction"
  let summary = trim_space answer
  guard (not (is_empty summary)) "LLM returned empty compaction summary"
  sequence ← or_fail (Chunks.next_sequence job.document_id) "getting next sequence"
  chunk ←
      or_fail (Chunks.create job.document_id summary sequence (summary_meta chunks))
        "creating summary chunk"
  embeddings ← or_fail (result (provider.embed (summary ∷ []))) "computing summary embedding"
  store_summary provider.model chunk.id (summary_meta chunks) embeddings
  transfer_all source_ids chunk.id
  or_fail (Vectors.delete_batch source_ids) "deleting source embeddings"
  or_fail (Chunks.mark_compacted source_ids chunk.id) "marking chunks as compacted"
  or_fail
      (Compactions.create chunk.id source_ids job.document_id
        (requester (lookup "requested_by" job.progress)))
      "creating compaction record"
  pure tt

-- CompactionWorker.Process.
unfoldable pub process : Summarize → Provider → ProcessingJob → Exec World Error (Unit {0})
process summarize provider job = do
  chunks ← chunks_to_compact job
  if ltb (length chunks) 2 then pure tt else compact summarize provider job chunks
