-- ===== src/Server/Compaction.antt =====
-- internal/server/compaction.go: the CompactionService, with its job store set. The warning that
-- `Uncompact` prints is left out.
pub mod Guarded
pub mod Moves
pub mod Effects
pub mod Reversal
use creel.Base.{
  is_empty, ℕ, String, Bool, true, false, List, [], ◌∷◌, ◌++◌, map, Option, none, some, ◌||◌, not,
  ◌==◌, length, if◌then◌else◌,
}
use creel.Exec.{Exec, Result, ok, err, pure, guard, ignore, ◌>>=◌, ◌>>◌}
use creel.Store.Rows.{
  Principal, Action, Json, JsonItems, Metadata, put, Vector, Chunk, CompactionRecord, ProcessingJob,
  num, str, arr, nil, cons,
}
use creel.Store.World.{World}
use creel.Store.Chunks
use creel.Store.Documents
use creel.Store.Links
use creel.Store.Compactions
use creel.Store.Vectors
use creel.Store.Jobs
use creel.Server.Status.{
  Code, Handler, authenticate, authorize, or_internal, or_not_found, invalid_argument,
}

-- The summary's text is a list of bytes.
pub record CompactRequest : Type 0 where
  pub document_id : String
  pub chunk_ids : List String
  pub summary_content : List ℕ
  pub summary_embedding : Vector
  pub summary_metadata : Metadata

abbrev pub complete : CompactRequest → Bool
complete req =
    not (req.document_id == "" || (is_empty req.chunk_ids || is_empty req.summary_content))

abbrev pub summary_meta : CompactRequest → Metadata
summary_meta req = put "compaction_source_count" (num (length req.chunk_ids)) req.summary_metadata

-- The caller's embedding of the summary is stored; without one, a job is to make it.
unfoldable pub embed_summary : String → Vector → Metadata → String → Handler (Unit {0})
embed_summary document_id [] meta summary_id = ignore (Jobs.create document_id "embedding")
embed_summary document_id (x ∷ xs) meta summary_id = do
  or_internal (Vectors.store summary_id (x ∷ xs) meta)
  or_internal (Chunks.set_embedding_id summary_id summary_id)

-- The loop over the source chunks.
unfoldable pub transfer_all : List String → String → Handler (Unit {0})
transfer_all [] summary_id = pure tt
transfer_all (id ∷ ids) summary_id = do
  or_internal (Links.transfer_links id summary_id)
  transfer_all ids summary_id

-- The response: the summary chunk, read again, and the number of chunks that the request names.
unfoldable pub compact : Option Principal → CompactRequest → Handler (Chunk × ℕ)
compact p req = do
  caller ← authenticate p
  guard (complete req) invalid_argument
  topic_id ← or_not_found (Documents.topic_id_for_document req.document_id)
  authorize caller topic_id Action.write
  next ← or_internal (Chunks.next_sequence req.document_id)
  summary ← or_internal (Chunks.create req.document_id req.summary_content next (summary_meta req))
  embed_summary req.document_id req.summary_embedding (summary_meta req) summary.id
  transfer_all req.chunk_ids summary.id
  or_internal (Vectors.delete_batch req.chunk_ids)
  or_internal (Chunks.mark_compacted req.chunk_ids summary.id)
  or_internal (Compactions.create summary.id req.chunk_ids req.document_id caller.id)
  final ← or_internal (Chunks.get summary.id)
  pure (final, length req.chunk_ids)

-- The asked chunks that the map has, in order.
unfoldable pub found_chunks : (String → Option Chunk) → List String → List Chunk
found_chunks chunks [] = []
found_chunks chunks (id ∷ ids) = elim (chunks id) [
  | none ↦ found_chunks chunks ids
  | some c ↦ c ∷ found_chunks chunks ids
]

-- With no restored chunk the source does not call `GetMultiple`, which then does nothing.
unfoldable pub uncompact : Option Principal → String → Handler (List Chunk)
uncompact p summary_id = do
  caller ← authenticate p
  guard (not (summary_id == "")) invalid_argument
  entry ← or_not_found (Compactions.get_by_summary_chunk_id summary_id)
  topic_id ← or_internal (Documents.topic_id_for_document entry.document_id)
  authorize caller topic_id Action.write
  restored ← or_internal (Chunks.restore_compacted summary_id)
  or_internal (Vectors.delete summary_id)
  or_internal (Compactions.delete entry.id)
  or_internal (Chunks.delete summary_id)
  ignore (Jobs.create entry.document_id "embedding")
  chunks ← or_internal (Chunks.get_multiple restored)
  pure (found_chunks chunks restored)

abbrev strings : List String → JsonItems
strings [] = nil
strings (s ∷ ss) = cons (str s) (strings ss)

abbrev pub requested : String → List String → Metadata
requested caller [] = ("requested_by", str caller) ∷ []
requested caller (id ∷ ids) =
    put "chunk_ids" (arr (strings (id ∷ ids))) (("requested_by", str caller) ∷ [])

unfoldable pub request_compaction : Option Principal → String → List String → Handler String
request_compaction p document_id chunk_ids = do
  caller ← authenticate p
  guard (not (document_id == "")) invalid_argument
  topic_id ← or_not_found (Documents.topic_id_for_document document_id)
  authorize caller topic_id Action.write
  job ←
      or_internal
        (Jobs.create_with_progress document_id "compaction" (requested caller.id chunk_ids))
  pure job.id

unfoldable pub get_compaction_history : Option Principal → String → Handler (List CompactionRecord)
get_compaction_history p document_id = do
  caller ← authenticate p
  guard (not (document_id == "")) invalid_argument
  topic_id ← or_not_found (Documents.topic_id_for_document document_id)
  authorize caller topic_id Action.read
  or_internal (Compactions.list_by_document document_id)
