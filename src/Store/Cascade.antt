-- ===== src/Store/Cascade.antt =====
-- The ON DELETE clauses of migrations/*.sql: what a DELETE of chunks, documents or a topic takes
-- along, and when a foreign key without such a clause makes it fail.
use creel.Base.{
  String, Bool, false, List, Option, none, some, ◌&&◌, ◌||◌, not, ◌==◌, select, exists, update,
  if◌then◌else◌,
}
use creel.Store.Rows.{Document, Chunk}
use creel.Store.World.{Db}

abbrev is_some_of : (String → Bool) → Option String → Bool
is_some_of p none = false
is_some_of p (some s) = p s

-- The IDs of the rows of `chunks` that a test selects.
abbrev pub chunk_among : (Chunk → Bool) → List Chunk → String → Bool
chunk_among p cs id = exists (λ c. p c && c.id == id) cs

-- `compacted_by` has no ON DELETE clause: no row that stays may refer to one that goes.
abbrev chunks_held : (Chunk → Bool) → List Chunk → Bool
chunks_held p cs = exists (λ c. not (p c) && is_some_of (chunk_among p cs) c.compacted_by) cs

unfoldable pub without_chunks : (Chunk → Bool) → Db → Db
without_chunks p db =
    let gone = chunk_among p db.chunks in
    record db {
      chunks = select (λ c. not (p c)) db.chunks;
      links = select (λ l. not (gone l.source_chunk_id || gone l.target_chunk_id)) db.links;
      compactions = select (λ r. not (gone r.summary_chunk_id)) db.compactions;
      embeddings = select (λ e. not (gone e.chunk_id)) db.embeddings;
      memories =
          update (λ m. is_some_of gone m.source_chunk_id) (λ m. record m { source_chunk_id = none })
            db.memories;
    }

-- DELETE FROM chunks WHERE p.
unfoldable pub delete_chunks : (Chunk → Bool) → Db → Option Db
unfolding without_chunks
delete_chunks p db = if chunks_held p db.chunks then none else some (without_chunks p db)

abbrev pub document_among : (Document → Bool) → List Document → String → Bool
document_among p ds id = exists (λ d. p d && d.id == id) ds

unfoldable pub without_documents : (Document → Bool) → Db → Db
unfolding without_chunks
without_documents p db =
    let gone = document_among p db.documents in
    let db' = without_chunks (λ c. gone c.document_id) db in
    record db' {
      documents = select (λ d. not (p d)) db.documents;
      contents = select (λ c. not (gone c.document_id)) db.contents;
      compactions = select (λ r. not (gone r.document_id)) db'.compactions;
      jobs = select (λ j. not (gone j.document_id)) db.jobs;
    }

-- DELETE FROM documents WHERE p.
unfoldable pub delete_documents : (Document → Bool) → Db → Option Db
unfolding without_documents
delete_documents p db =
    if chunks_held (λ c. document_among p db.documents c.document_id) db.chunks
    then none
    else some (without_documents p db)

-- DELETE FROM topics WHERE id = $1.
unfoldable pub delete_topic : String → Db → Option Db
unfolding without_documents
delete_topic id db =
    if chunks_held (λ c. document_among (λ d. d.topic_id == id) db.documents c.document_id)
      db.chunks
    then none
    else some (record (without_documents (λ d. d.topic_id == id) db) {
      topics = select (λ t. not (t.id == id)) db.topics;
      grants = select (λ g. not (g.topic_id == id)) db.grants;
    })
