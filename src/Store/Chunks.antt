-- ===== src/Store/Chunks.antt =====
-- internal/store/chunk.go: the table of chunks.
pub mod Models
use creel.Base.{
  ℕ, suc, ◌-◌, ℤ, pos, negsuc, leb_ℤ, suc_ℤ, String, Bool, true, false, List, [], ◌∷◌, ◌++◌, Option,
  none, some, ◌&&◌, not, leb, ◌==◌, contains, length, drop, map, select, first, exists, update,
  if◌then◌else◌,
}
use creel.Exec.{Exec, Result, ok, err}
use creel.Store.Rows.{Chunk, ChunkStatus, Document, Metadata, compacted}
use creel.Store.World.{World, Db, Error, statement, row_or}
use creel.Store.Jobs.{has_document}
use creel.Store.Cascade.{delete_chunks}

abbrev pub new_chunk : World → String → List ℕ → ℤ → Metadata → Chunk
new_chunk w document_id content sequence metadata = record {
  id = w.env.new_id w.tick;
  document_id = document_id;
  sequence = sequence;
  content = content;
  embedding_id = none;
  status = ChunkStatus.active;
  compacted_by = none;
  metadata = metadata;
  created_at = w.env.now w.tick;
}

-- ChunkStore.Create; the document must be there.
unfoldable pub create : String → List ℕ → ℤ → Metadata → Exec World Error Chunk
unfolding statement
create document_id content sequence metadata = statement "inserting chunk" λ w.
    let c = new_chunk w document_id content sequence metadata in
    if has_document w.db.documents document_id
    then (ok c, record w.db { chunks = w.db.chunks ++ c ∷ [] })
    else (err "inserting chunk", w.db)

abbrev pub find_chunk : String → List Chunk → Option Chunk
find_chunk id = first (λ c. c.id == id)

-- ChunkStore.Get.
unfoldable pub get : String → Exec World Error Chunk
unfolding statement
get id =
    statement "querying chunk" λ w. (row_or "chunk not found" (find_chunk id w.db.chunks), w.db)

abbrev deleted : Db → Option Db → Result Error (Unit {0}) × Db
deleted db none = (err "deleting chunk", db)
deleted db (some db') = (ok tt, db')

-- ChunkStore.Delete.
unfoldable pub delete : String → Exec World Error (Unit {0})
unfolding statement delete_chunks
delete id = statement "deleting chunk" λ w.
    if exists (λ c. c.id == id) w.db.chunks
    then deleted w.db (delete_chunks (λ c. c.id == id) w.db)
    else (err "chunk not found", w.db)

unfoldable pub set_embedding : String → Chunk → Chunk
set_embedding embedding_id c = record c { embedding_id = some embedding_id }

-- ChunkStore.SetEmbeddingID; a missing chunk is no error.
unfoldable pub set_embedding_id : String → String → Exec World Error (Unit {0})
unfolding statement set_embedding
set_embedding_id chunk_id embedding_id = statement "setting embedding ID" λ w. (
  ok tt,
  record w.db { chunks = update (λ c. c.id == chunk_id) (set_embedding embedding_id) w.db.chunks },
)

abbrev pub is_active : ChunkStatus → Bool
is_active ChunkStatus.active = true
is_active compacted = false

abbrev pub find_document : String → List Document → Option Document
find_document id = first (λ d. d.id == id)

-- The join of a chunk with its document.
abbrev pub in_topics : Db → List String → Chunk → Bool
in_topics db topic_ids c =
    exists (λ d. d.id == c.document_id && contains topic_ids d.topic_id) db.documents

-- ChunkStore.ChunkIDsByTopics; with no excluded documents the second test is not made, and holds.
unfoldable pub chunk_ids_by_topics : List String → List String → Exec World Error (List String)
unfolding statement
chunk_ids_by_topics topic_ids exclude_doc_ids = statement "querying chunk IDs" λ w. (
  ok (
      map (λ c. c.id)
        (select
          (λ c.
            in_topics w.db topic_ids c
            && (is_active c.status && not (contains exclude_doc_ids c.document_id)))
          w.db.chunks)),
  w.db,
)

-- ChunkStore.GetMultiple: the map from the asked IDs to the chunks that are there.
unfoldable pub get_multiple : List String → Exec World Error (String → Option Chunk)
unfolding statement
get_multiple [] w = (ok (λ id. none), w)
get_multiple (i ∷ ids) w =
    statement "querying chunks"
      (λ v. (ok (λ id. if contains (i ∷ ids) id then find_chunk id v.db.chunks else none), v.db)) w

-- ChunkStore.DocumentTopicIDs: the map from the asked documents to their topics.
abbrev pub topic_of : Option Document → Option String
topic_of none = none
topic_of (some d) = some d.topic_id

unfoldable pub document_topic_ids : List String → Exec World Error (String → Option String)
unfolding statement
document_topic_ids [] w = (ok (λ id. none), w)
document_topic_ids (i ∷ ids) w =
    statement "querying document topics"
      (λ v. (
        ok (λ id.
            if contains (i ∷ ids) id then topic_of (find_document id v.db.documents) else none),
        v.db,
      ))
      w

-- ORDER BY sequence ASC.
abbrev pub insert_chunk : Chunk → List Chunk → List Chunk
insert_chunk c [] = c ∷ []
insert_chunk c (d ∷ ds) =
    let rest = insert_chunk c ds in if leb_ℤ c.sequence d.sequence then c ∷ d ∷ ds else d ∷ rest

unfoldable pub by_sequence : List Chunk → List Chunk
by_sequence [] = []
by_sequence (c ∷ cs) = insert_chunk c (by_sequence cs)

abbrev since_ok : Option ℕ → Chunk → Bool
since_ok none c = true
since_ok (some t) c = leb t c.created_at

-- The last n of the chunks in order, if n is positive; all of them otherwise.
abbrev last_n : ℤ → List Chunk → List Chunk
last_n (pos (suc n)) cs = drop (length cs - suc n) cs
last_n _ cs = cs

abbrev pub active_in : String → Option ℕ → Chunk → Bool
active_in document_id since c =
    c.document_id == document_id && (is_active c.status && since_ok since c)

-- ChunkStore.ListByDocument; a zero `since` is `none`.
unfoldable pub list_by_document : String → ℤ → Option ℕ → Exec World Error (List Chunk)
unfolding statement by_sequence
list_by_document document_id last since =
    statement "listing chunks by document"
      λ w. (ok (last_n last (by_sequence (select (active_in document_id since) w.db.chunks))), w.db)

-- SET status = 'compacted', compacted_by = $2, embedding_id = NULL.
unfoldable pub mark : String → Chunk → Chunk
mark summary_id c = record c {
  status = compacted;
  compacted_by = some summary_id;
  embedding_id = none;
}

abbrev pub to_compact : List String → Chunk → Bool
to_compact ids c = contains ids c.id && is_active c.status

-- ChunkStore.MarkCompacted.
unfoldable pub mark_compacted : List String → String → Exec World Error (Unit {0})
unfolding statement mark
mark_compacted chunk_ids summary_id = statement "marking chunks as compacted" λ w.
    if exists (to_compact chunk_ids) w.db.chunks
    then (
      ok tt,
      record w.db { chunks = update (to_compact chunk_ids) (mark summary_id) w.db.chunks },
    )
    else (err "no active chunks found to compact", w.db)

abbrev is_some_id : String → Option String → Bool
is_some_id id none = false
is_some_id id (some s) = s == id

abbrev pub compacted_into : String → Chunk → Bool
compacted_into summary_id c = is_some_id summary_id c.compacted_by

-- SET status = 'active', compacted_by = NULL.
unfoldable pub unmark : Chunk → Chunk
unmark c = record c { status = ChunkStatus.active; compacted_by = none }

-- ChunkStore.RestoreCompacted.
unfoldable pub restore_compacted : String → Exec World Error (List String)
unfolding statement unmark
restore_compacted summary_id = statement "restoring compacted chunks" λ w. (
  ok (map (λ c. c.id) (select (compacted_into summary_id) w.db.chunks)),
  record w.db { chunks = update (compacted_into summary_id) unmark w.db.chunks },
)

abbrev larger : ℤ → ℤ → ℤ
larger a b = if leb_ℤ a b then b else a

-- MAX(sequence), if there is a row.
abbrev max_sequence : List Chunk → Option ℤ
max_sequence [] = none
max_sequence (c ∷ cs) = elim (max_sequence cs) [
  | none ↦ some c.sequence
  | some m ↦ some (larger c.sequence m)
]

abbrev or_zero : Option ℤ → ℤ
or_zero none = pos 0
or_zero (some m) = m

-- ChunkStore.NextSequence.
unfoldable pub next_sequence : String → Exec World Error ℤ
unfolding statement
next_sequence document_id = statement "querying next sequence" λ w. (
  ok (suc_ℤ (or_zero (max_sequence (select (λ c. c.document_id == document_id) w.db.chunks)))),
  w.db,
)

-- ChunkStore.DocumentTopicID, and DocumentStore.TopicIDForDocument with it.
unfoldable pub document_topic_id : String → Exec World Error String
unfolding statement
document_topic_id document_id =
    statement "querying document topic"
      λ w. (row_or "document not found" (topic_of (find_document document_id w.db.documents)), w.db)
