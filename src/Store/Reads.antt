-- ===== src/Store/Reads.antt =====
-- The statements of internal/store that only read: what their results say of the tables.
pub mod Lists
use creel.Base.{String, Option, some, ◌≡◌, ◌∙◌, arith, first, ◌==◌, subst, inl, inr}
use creel.Exec.{Exec, ok, or_fail, ◌>>=◌, Result-cases}
use creel.Store.Rows.{CompactionRecord, Link}
use creel.Store.World.{World, Db, Error, statement}
use creel.Store.Chunks
use creel.Store.Chunks.{find_chunk, find_document, topic_of}
use creel.Store.Documents
use creel.Store.Jobs
use creel.Store.Jobs.{find_job}
use creel.Store.Links
use creel.Store.Compactions

-- Nothing is written, and a result is one that the tables give.
pub record Reads {A : Type 0} (Q : A → Db → Type 0) (m : Exec World Error A) : Type 0 where
  pub keeps : (w : World) → (m w).1.db ≡ w.db
  pub gives : (w : World) (a : A) → (m w).0 ≡ ok a → Q a w.db

module _ {A B : Type 0} {Q : A → Db → Type 0} (db : Db) where
  -- A chain that succeeds on tables went on from the same tables with a result that they give.
  pub after_reading :
      (m : Exec World Error A) (k : A → Exec World Error B) (w : World) (b : B)
      → Reads Q m
      → w.db ≡ db
      → ((m >>= k) w).0 ≡ ok b
      → (a : A) × Q a db × (v : World) × (v.db ≡ db) × ((k a v).0 ≡ ok b)
  after_reading m k w b r same h = elim (Result-cases (m w).0) [
    | inl (a, s) ↦ (a, subst (Q a) same (r.gives w a s), (m w).1, r.keeps w ∙ same, ground arith)
    | inr (x, s) ↦ absurd (ground arith)
  ]

  pub after_reading_or_fail :
      {F : Type 0} (m : Exec World Error A) (e : F) (k : A → Exec World F B) (w : World) (b : B)
      → Reads Q m
      → w.db ≡ db
      → ((or_fail m e >>= k) w).0 ≡ ok b
      → (a : A) × Q a db × (v : World) × (v.db ≡ db) × ((k a v).0 ≡ ok b)
  after_reading_or_fail m e k w b r same h = elim (Result-cases (m w).0) [
    | inl (a, s) ↦ (a, subst (Q a) same (r.gives w a s), (m w).1, r.keeps w ∙ same, ground arith)
    | inr (x, s) ↦ absurd (ground arith)
  ]

-- The record of the compaction that a summary chunk stands for.
abbrev pub record_of : String → Db → Option CompactionRecord
record_of summary_id db = first (λ r. r.summary_chunk_id == summary_id) db.compactions

abbrev pub find_link : String → Db → Option Link
find_link id db = first (λ l. l.id == id) db.links

pub topic_id_for_document-Reads :
    (id : String)
    → Reads
        (λ t db. topic_of (find_document id db.documents) ≡ some t)
        (Documents.topic_id_for_document id)
unfolding Documents.topic_id_for_document Chunks.document_topic_id statement
topic_id_for_document-Reads id = record { keeps = λ w. ground arith; gives = λ w a h. ground arith }

pub document_topic_id-Reads :
    (id : String)
    → Reads
        (λ t db. topic_of (find_document id db.documents) ≡ some t)
        (Chunks.document_topic_id id)
unfolding Chunks.document_topic_id statement
document_topic_id-Reads id = record { keeps = λ w. ground arith; gives = λ w a h. ground arith }

pub chunk-Reads : (id : String) → Reads (λ c db. find_chunk id db.chunks ≡ some c) (Chunks.get id)
unfolding Chunks.get statement
chunk-Reads id = record { keeps = λ w. ground arith; gives = λ w a h. ground arith }

pub document-Reads :
    (id : String) → Reads (λ d db. find_document id db.documents ≡ some d) (Documents.get id)
unfolding Documents.get statement
document-Reads id = record { keeps = λ w. ground arith; gives = λ w a h. ground arith }

pub link-Reads : (id : String) → Reads (λ l db. find_link id db ≡ some l) (Links.get id)
unfolding Links.get statement
link-Reads id = record { keeps = λ w. ground arith; gives = λ w a h. ground arith }

pub record-Reads :
    (id : String)
    → Reads (λ r db. record_of id db ≡ some r) (Compactions.get_by_summary_chunk_id id)
unfolding Compactions.get_by_summary_chunk_id statement
record-Reads id = record { keeps = λ w. ground arith; gives = λ w a h. ground arith }

pub job-Reads : (id : String) → Reads (λ j db. find_job id db.jobs ≡ some j) (Jobs.get id)
unfolding Jobs.get statement
job-Reads id = record { keeps = λ w. ground arith; gives = λ w a h. ground arith }

pub ruleset read_rules = (
  topic_id_for_document-Reads, document_topic_id-Reads, chunk-Reads, document-Reads, link-Reads,
  record-Reads, job-Reads,
)
