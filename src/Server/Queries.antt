-- ===== src/Server/Queries.antt =====
-- The reading calls of the services in internal/server, and what each asks of its caller.
pub mod Returned
pub mod Readable
use creel.Base.{
  String, Bool, true, false, List, [], ◌∷◌, map, map-Memᴰ, Memᴰ, Option, some, ◌≡◌, ◌⊎◌, inl, inr,
  arith, ◌==◌,
}
use creel.Exec.{Result, ok, err, Result-cases}
use creel.Store.Rows.{
  Principal, Action, Topic, Grant, Document, Chunk, Link, CompactionRecord, ProcessingJob, Json,
}
use creel.Store.World.{World, Db}
use creel.Store.Grants.{find_topic}
use creel.Store.Jobs.{find_job}
use creel.Store.Chunks.{find_document, find_chunk, topic_of}
use creel.Store.Links.{touches}
use creel.Store.Reads.Lists.{Chosen, is_listed}
use creel.Server.Status.{Code}
use creel.Server.Guarded.{CallerAllowed}
use creel.Server.Guarded.Reading.{DocumentAllowed, ChunkAllowed}
use creel.Server.Guarded.Returning.{Returns, returning_rules}
use creel.Server.Topic.{get_topic, list_grants}
use creel.Server.Document.{get_document, list_documents}
use creel.Server.Chunk.{get_chunk}
use creel.Server.Link.{list_links}
use creel.Server.Compaction.{get_compaction_history}
use creel.Server.Job.{string_at, get_job}

pub data Query : Type 0 where
  of_topic : String → Query
  of_grants : String → Query
  of_document : String → Query
  of_documents : String → Query
  of_chunk : String → Query
  of_links : String → Bool → Query
  of_compactions : String → Query
  of_job : String → Query

-- The rows of which the answers are made.
pub data Row : Type 0 where
  topic_row : Topic → Row
  grant_row : Grant → Row
  document_row : Document → Row
  chunk_row : Chunk → Row
  link_row : Link → Row
  compaction_row : CompactionRecord → Row
  job_row : ProcessingJob → Row

abbrev pub answer_of : {A : Type 0} → (A → List Row) → Result Code A → List Row
answer_of f (ok a) = f a
answer_of f (err e) = []

-- The rows that a call returns; none with an error.
unfoldable pub answers : Option Principal → Query → World → List Row
answers p (of_topic id) w = answer_of (λ t. topic_row t ∷ []) (get_topic p id w).0
answers p (of_grants id) w = answer_of (map grant_row) (list_grants p id w).0
answers p (of_document id) w = answer_of (λ d. document_row d ∷ []) (get_document p id w).0
answers p (of_documents id) w = answer_of (map document_row) (list_documents p id w).0
answers p (of_chunk id) w = answer_of (λ c. chunk_row c.0 ∷ []) (get_chunk p id w).0
answers p (of_links id back) w = answer_of (map link_row) (list_links p id back w).0
answers p (of_compactions id) w = answer_of (map compaction_row) (get_compaction_history p id w).0
answers p (of_job id) w = answer_of (λ j. job_row j ∷ []) (get_job p id w).0

-- A job without a document is its principal's; any other belongs to its document.
abbrev pub JobReadable : Option Principal → ProcessingJob → Db → Type 0
JobReadable p j db =
    ((j.document_id ≡ "")
      × ((q : Principal) × (p ≡ some q) × (string_at "principal" j.progress ≡ q.id)))
    ⊎ DocumentAllowed p j.document_id Action.read db

-- The row stands in its table, and the caller is known and may read the topic that it belongs to; of a
-- link, that of one of its two chunks.
abbrev pub MayRead : Option Principal → Row → Db → Type 0
MayRead p (topic_row t) db =
    (find_topic t.id db.topics ≡ some t) × CallerAllowed p t.id Action.read db
MayRead p (grant_row g) db = Memᴰ g db.grants × CallerAllowed p g.topic_id Action.read db
MayRead p (document_row d) db = Memᴰ d db.documents × CallerAllowed p d.topic_id Action.read db
MayRead p (chunk_row c) db =
    (find_chunk c.id db.chunks ≡ some c) × DocumentAllowed p c.document_id Action.read db
MayRead p (link_row l) db =
    Memᴰ l db.links
    × (ChunkAllowed p l.source_chunk_id Action.read db
        ⊎ ChunkAllowed p l.target_chunk_id Action.read db)
MayRead p (compaction_row r) db =
    Memᴰ r db.compactions × DocumentAllowed p r.document_id Action.read db
MayRead p (job_row j) db = (find_job j.id db.jobs ≡ some j) × JobReadable p j db
