-- ===== src/Server/Api.antt =====
-- The writing calls of the services in internal/server that handle topics, documents, chunks,
-- links, compactions and memories, and what each asks of its caller.
use creel.Base.{String, List, Option, none, some, ◌≡◌, refl, ◌⊎◌, inl, inr}
use creel.Exec.{◌>>=◌}
use creel.Store.Rows.{Principal, Action, Metadata}
use creel.Store.World.{World, Db}
use creel.Server.Guarded.{WritesOnlyIf, CallerAllowed}
use creel.Server.Guarded.Reading.{DocumentAllowed, ChunkAllowed, SummaryAllowed, LinkAllowed}
use creel.Server.Topic.Guarded
use creel.Server.Topic.Guarded.{Call, target, serve-Allowed}
use creel.Server.Document.{
  DocumentRequest, UploadRequest, Fetcher, create_document, update_document, delete_document,
  upload_document,
}
use creel.Server.Document.Guarded.{
  create_document-WritesOnlyIf, update_document-WritesOnlyIf, delete_document-WritesOnlyIf,
  upload_document-WritesOnlyIf,
}
use creel.Server.Chunk.{ChunkInput, ingest_chunks, delete_chunk}
use creel.Server.Chunk.Guarded.{ingest_chunks-WritesOnlyIf, delete_chunk-WritesOnlyIf}
use creel.Server.Link.{CreateLinkRequest, create_link, delete_link}
use creel.Server.Link.Guarded.{create_link-WritesOnlyIf, delete_link-WritesOnlyIf}
use creel.Server.Compaction.{CompactRequest, compact, uncompact, request_compaction}
use creel.Server.Compaction.Guarded.{
  compact-WritesOnlyIf, uncompact-WritesOnlyIf, request_compaction-WritesOnlyIf,
}
use creel.Server.Memory.{
  AddMemoryRequest, Message, add_memory, add_messages, update_memory, delete_memory,
}
use creel.Server.Topic.{TopicRequest, create_topic}
use creel.Server.Status.{Handler, authenticate}
use creel.Server.Memory.Guarded.{OwnsMemory, update_memory-WritesOnlyIf, delete_memory-WritesOnlyIf}

pub data ApiCall : Type 0 where
  on_topic : Call → ApiCall
  creates_document : String → DocumentRequest → ApiCall
  updates_document : DocumentRequest → ApiCall
  deletes_document : String → ApiCall
  uploads_document : Fetcher → String → UploadRequest → ApiCall
  ingests_chunks : String → List ChunkInput → ApiCall
  deletes_chunk : String → ApiCall
  creates_link : CreateLinkRequest → ApiCall
  deletes_link : String → ApiCall
  compacts : CompactRequest → ApiCall
  uncompacts : String → ApiCall
  requests_compaction : String → List String → ApiCall
  updates_memory : String → String → Option Metadata → ApiCall
  deletes_memory : String → ApiCall
  creates_topic : String → TopicRequest → ApiCall
  adds_memory : AddMemoryRequest → ApiCall
  adds_messages : String → List Message → ApiCall

unfoldable pub call : Option Principal → ApiCall → World → World
call p (on_topic c) w = Guarded.serve p c w
call p (creates_document generated req) w = (create_document generated p req w).1
call p (updates_document req) w = (update_document p req w).1
call p (deletes_document id) w = (delete_document p id w).1
call p (uploads_document fetcher generated req) w = (upload_document fetcher generated p req w).1
call p (ingests_chunks id inputs) w = (ingest_chunks p id inputs w).1
call p (deletes_chunk id) w = (delete_chunk p id w).1
call p (creates_link req) w = (create_link p req w).1
call p (deletes_link id) w = (delete_link p id w).1
call p (compacts req) w = (compact p req w).1
call p (uncompacts id) w = (uncompact p id w).1
call p (requests_compaction id chunk_ids) w = (request_compaction p id chunk_ids w).1
call p (updates_memory id content metadata) w = (update_memory p id content metadata w).1
call p (deletes_memory id) w = (delete_memory p id w).1
call p (creates_topic generated req) w = (create_topic generated p req w).1
call p (adds_memory req) w = (add_memory p req w).1
call p (adds_messages scope messages) w = (add_messages p scope messages w).1

abbrev pub Known : Option Principal → Type 0
Known p = (q : Principal) × (p ≡ some q)

authenticated-WritesOnlyIf :
    {A : Type 0} (p : Option Principal) (k : Principal → Handler A)
    → WritesOnlyIf (λ db. Known p) (authenticate p >>= k)
authenticated-WritesOnlyIf none k = record { at = λ w. inl refl }
authenticated-WritesOnlyIf (some q) k = record { at = λ w. inr (q, refl) }

-- What must hold of the tables before the call.
abbrev pub Permitted : Option Principal → ApiCall → Db → Type 0
Permitted p (on_topic c) = CallerAllowed p (target c) Action.admin
Permitted p (creates_document generated req) = CallerAllowed p req.topic_id Action.write
Permitted p (updates_document req) = DocumentAllowed p req.id Action.write
Permitted p (deletes_document id) = DocumentAllowed p id Action.admin
Permitted p (uploads_document fetcher generated req) =
    CallerAllowed p req.document.topic_id Action.write
Permitted p (ingests_chunks id inputs) = DocumentAllowed p id Action.write
Permitted p (deletes_chunk id) = ChunkAllowed p id Action.admin
Permitted p (creates_link req) = ChunkAllowed p req.source_chunk_id Action.write
Permitted p (deletes_link id) = LinkAllowed p id Action.write
Permitted p (compacts req) = DocumentAllowed p req.document_id Action.write
Permitted p (uncompacts id) = SummaryAllowed p id Action.write
Permitted p (requests_compaction id chunk_ids) = DocumentAllowed p id Action.write
Permitted p (updates_memory id content metadata) = OwnsMemory p id
Permitted p (deletes_memory id) = OwnsMemory p id
Permitted p (creates_topic generated req) = λ db. Known p
Permitted p (adds_memory req) = λ db. Known p
Permitted p (adds_messages scope messages) = λ db. Known p

-- Whatever statements fail, a writing call on topics, grants, documents, chunks, links, compactions or
-- memories changes the tables only if the caller is known and, by the tables as they were before, may
-- administer the topic for a change of the topic or its grants and to delete a document or chunk, may
-- write to the topic of the document that is created, changed, uploaded, filled or compacted, of a
-- link's source chunk or of the compaction that is undone, or owns the memory that is changed or
-- deleted. To create a topic or to send memories the caller need only be known.
pub call-Permitted :
    (p : Option Principal) (c : ApiCall) (w : World) → ((call p c w).db ≡ w.db) ⊎ Permitted p c w.db
unfolding call create_topic add_memory add_messages
call-Permitted p (on_topic c) w = serve-Allowed p c w
call-Permitted p (creates_document generated req) w =
    (create_document-WritesOnlyIf generated p req).at w
call-Permitted p (updates_document req) w = (update_document-WritesOnlyIf p req).at w
call-Permitted p (deletes_document id) w = (delete_document-WritesOnlyIf p id).at w
call-Permitted p (uploads_document fetcher generated req) w =
    (upload_document-WritesOnlyIf fetcher generated p req).at w
call-Permitted p (ingests_chunks id inputs) w = (ingest_chunks-WritesOnlyIf p id inputs).at w
call-Permitted p (deletes_chunk id) w = (delete_chunk-WritesOnlyIf p id).at w
call-Permitted p (creates_link req) w = (create_link-WritesOnlyIf p req).at w
call-Permitted p (deletes_link id) w = (delete_link-WritesOnlyIf p id).at w
call-Permitted p (compacts req) w = (compact-WritesOnlyIf p req).at w
call-Permitted p (uncompacts id) w = (uncompact-WritesOnlyIf p id).at w
call-Permitted p (requests_compaction id chunk_ids) w =
    (request_compaction-WritesOnlyIf p id chunk_ids).at w
call-Permitted p (updates_memory id content metadata) w =
    (update_memory-WritesOnlyIf p id content metadata).at w
call-Permitted p (deletes_memory id) w = (delete_memory-WritesOnlyIf p id).at w
call-Permitted p (creates_topic generated req) w = (authenticated-WritesOnlyIf p _).at w
call-Permitted p (adds_memory req) w = (authenticated-WritesOnlyIf p _).at w
call-Permitted p (adds_messages scope messages) w = (authenticated-WritesOnlyIf p _).at w
