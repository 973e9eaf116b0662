-- ===== src/Server/Guarded/Reading.antt =====
-- Handlers that read rows before they ask the authorizer: the chain from a document or a chunk to
-- the topic on which the caller must be allowed the action.
use creel.Base.{String, Option, some, ◌≡◌, ◌∙◌, inl, inr, subst}
use creel.Exec.{Exec, or_fail, ◌>>=◌, Result-cases}
use creel.Store.Rows.{Principal, Action, Chunk, CompactionRecord, Link}
use creel.Store.World.{World, Db, Error}
use creel.Store.Chunks.{find_chunk, find_document, topic_of}
use creel.Store.Reads.{Reads, record_of, find_link, read_rules}
use creel.Server.Status.{Code, Handler}
use creel.Server.Guarded.{WritesOnlyIf, CallerAllowed}

-- The topic of the document is one on which the caller may do `a`.
abbrev pub DocumentAllowed : Option Principal → String → Action → Db → Type 0
DocumentAllowed p document_id a db =
    (t : String) × (topic_of (find_document document_id db.documents) ≡ some t)
    × CallerAllowed p t a db

abbrev pub ChunkAllowed : Option Principal → String → Action → Db → Type 0
ChunkAllowed p chunk_id a db =
    (c : Chunk) × (find_chunk chunk_id db.chunks ≡ some c) × DocumentAllowed p c.document_id a db

abbrev pub SummaryAllowed : Option Principal → String → Action → Db → Type 0
SummaryAllowed p summary_id a db =
    (r : CompactionRecord) × (record_of summary_id db ≡ some r)
    × DocumentAllowed p r.document_id a db

-- A link is guarded by its source chunk.
abbrev pub LinkAllowed : Option Principal → String → Action → Db → Type 0
LinkAllowed p link_id a db =
    (l : Link) × (find_link link_id db ≡ some l) × ChunkAllowed p l.source_chunk_id a db

module _ {A B : Type 0} where
  pub read-WritesOnlyIf :
      {Q : A → Db → Type 0} {P : A → Db → Type 0} (e : Code) (m : Exec World Error A)
      (k : A → Handler B)
      → Reads Q m
      → ((a : A) → WritesOnlyIf (P a) (k a))
      → WritesOnlyIf (λ db. (a : A) × Q a db × P a db) (or_fail m e >>= k)
  read-WritesOnlyIf {Q} {P} e m k r h = record {
    at = λ w. elim (Result-cases (m w).0) [
      | inl (a, s) ↦ elim ((h a).at (m w).1) [
        | inl same ↦ inl (rw s (same ∙ r.keeps w))
        | inr q ↦ inr (a, r.gives w a s, subst (P a) (r.keeps w) q)
      ]
      | inr (x, s) ↦ inl (rw s (r.keeps w))
    ];
  }

pub ruleset reading_rules = (read-WritesOnlyIf, read_rules)
