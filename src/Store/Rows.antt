-- ===== src/Store/Rows.antt =====
-- The structs of internal/store and internal/auth that stand for table rows. Columns that the
-- migrations restrict to a few words are data types of those words. A timestamp is a number.
use creel.Base.{ℕ, ℤ, String, Bool, Option, none, some, List, [], ◌∷◌, ◌==◌, if◌then◌else◌}

-- A value of a `map[string]any` that was decoded from JSON.
mutual
  pub data Json : Type 0 where
    null : Json
    bool : Bool → Json
    num : ℕ → Json
    str : String → Json
    arr : JsonItems → Json
    obj : JsonFields → Json

  pub data JsonItems : Type 0 where
    nil : JsonItems
    cons : Json → JsonItems → JsonItems

  pub data JsonFields : Type 0 where
    no_fields : JsonFields
    field : String → Json → JsonFields → JsonFields

-- `map[string]any`, an association list.
abbrev pub Metadata : Type 0
Metadata = List (String × Json)

-- `m[k] = v`.
abbrev pub put : String → Json → Metadata → Metadata
put k v [] = (k, v) ∷ []
put k v ((j, w) ∷ m) = if j == k then (k, v) ∷ m else (j, w) ∷ put k v m

-- `v, ok := m[k]`.
abbrev pub lookup : String → Metadata → Option Json
lookup k [] = none
lookup k ((j, v) ∷ m) = let rest = lookup k m in if j == k then some v else rest

-- auth.Action; `other` is any further string.
pub data Action : Type 0 where
  read write admin : Action
  other : String → Action

-- auth.Principal.
pub record Principal : Type 0 where
  pub id : String
  pub groups : List String
  pub is_system : Bool

-- topic_grants; auth.Grant is its projection on the first three of these columns.
pub record Grant : Type 0 where
  pub id : String
  pub topic_id : String
  pub principal : String
  pub permission : Action
  pub granted_by : String
  pub created_at : ℕ

pub record ChunkingStrategy : Type 0 where
  pub type : String
  pub chunk_size : ℤ
  pub chunk_overlap : ℤ

pub record Topic : Type 0 where
  pub id : String
  pub slug : String
  pub name : String
  pub description : String
  pub owner : String
  pub created_at : ℕ
  pub updated_at : ℕ
  pub llm_config_id : Option String
  pub embedding_config_id : Option String
  pub extraction_prompt_config_id : Option String
  pub chunking_strategy : Option ChunkingStrategy
  pub vector_backend_config_id : Option String

pub data DocumentStatus : Type 0 where
  pending processing ready failed : DocumentStatus

pub record Document : Type 0 where
  pub id : String
  pub topic_id : String
  pub slug : String
  pub name : String
  pub doc_type : String
  pub status : DocumentStatus
  pub metadata : Metadata
  pub created_at : ℕ
  pub updated_at : ℕ
  pub url : Option String
  pub author : Option String
  pub published_at : Option ℕ

-- document_content; bytes and text are lists of byte values.
pub record DocumentContent : Type 0 where
  pub document_id : String
  pub raw_content : List ℕ
  pub content_type : String
  pub extracted_text : List ℕ
  pub updated_at : ℕ

pub data ChunkStatus : Type 0 where
  active compacted : ChunkStatus

pub record Chunk : Type 0 where
  pub id : String
  pub document_id : String
  pub sequence : ℤ
  pub content : List ℕ
  pub embedding_id : Option String
  pub status : ChunkStatus
  pub compacted_by : Option String
  pub metadata : Metadata
  pub created_at : ℕ

pub data LinkType : Type 0 where
  manual auto compaction_transfer : LinkType

pub record Link : Type 0 where
  pub id : String
  pub source_chunk_id : String
  pub target_chunk_id : String
  pub link_type : LinkType
  pub created_by : String
  pub metadata : Metadata
  pub created_at : ℕ

pub record CompactionRecord : Type 0 where
  pub id : String
  pub summary_chunk_id : String
  pub source_chunk_ids : List String
  pub document_id : String
  pub created_by : String
  pub created_at : ℕ

pub data JobStatus : Type 0 where
  queued running completed failed : JobStatus

-- processing_jobs; the empty document ID stands for NULL, as in the Go struct.
pub record ProcessingJob : Type 0 where
  pub id : String
  pub document_id : String
  pub job_type : String
  pub status : JobStatus
  pub progress : Metadata
  pub error : Option String
  pub started_at : Option ℕ
  pub completed_at : Option ℕ
  pub created_at : ℕ

pub data MemoryStatus : Type 0 where
  active invalidated : MemoryStatus

pub record Memory : Type 0 where
  pub id : String
  pub principal : String
  pub scope : String
  pub content : String
  pub embedding_id : Option String
  pub subject : Option String
  pub predicate : Option String
  pub object : Option String
  pub source_chunk_id : Option String
  pub status : MemoryStatus
  pub invalidated_at : Option ℕ
  pub metadata : Metadata
  pub created_at : ℕ
  pub updated_at : ℕ

-- A vector of floats, each by its bit pattern: nothing here computes with them.
abbrev pub Vector : Type 0
Vector = List ℕ

-- A row of chunk_embeddings.
pub record Embedding : Type 0 where
  pub chunk_id : String
  pub embedding : Vector
  pub metadata : Metadata

-- system_accounts and system_account_keys.
pub record SystemAccount : Type 0 where
  pub id : String
  pub name : String
  pub description : String
  pub principal : String
  pub created_at : ℕ

pub data KeyStatus : Type 0 where
  active grace_period revoked : KeyStatus

pub record SystemAccountKey : Type 0 where
  pub id : String
  pub account_id : String
  pub key_hash : String
  pub key_prefix : String
  pub status : KeyStatus
  pub grace_expires_at : Option ℕ
  pub created_at : ℕ
  pub revoked_at : Option ℕ
