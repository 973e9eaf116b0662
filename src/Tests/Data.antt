-- ===== src/Tests/Data.antt =====
-- Two topics of two owners, a group with a grant to the first, and a document with chunks in each.
use creel.Base.{ℕ, zero, suc, pos, String, false, [], ◌∷◌, none, some}
use Prim.Native.String.{◌++◌ as ◌<>◌}
use creel.Store.Rows.{
  Principal, Topic, Grant, Action, Document, Chunk, ChunkStatus, Embedding, ProcessingJob, ready,
  queued,
}
use creel.Store.World.{Env, Db, World}

abbrev pub alice : Principal
alice = record { id = "alice"; groups = []; is_system = false }

abbrev pub bob : Principal
bob = record { id = "bob"; groups = "engineering" ∷ []; is_system = false }

abbrev pub carol : Principal
carol = record { id = "carol"; groups = []; is_system = false }

-- A new ID for each statement.
abbrev pub fresh_id : ℕ → String
fresh_id zero = "new"
fresh_id (suc n) = "n" <> fresh_id n

abbrev pub healthy : Env
healthy = record { fails = λ n. false; now = λ n. n; new_id = fresh_id }

abbrev pub topic : String → String → Topic
topic id owner = record {
  id = id;
  slug = id;
  name = id;
  description = "";
  owner = owner;
  created_at = 0;
  updated_at = 0;
  llm_config_id = none;
  embedding_config_id = none;
  extraction_prompt_config_id = none;
  chunking_strategy = none;
  vector_backend_config_id = none;
}

abbrev pub engineering_writes : Grant
engineering_writes = record {
  id = "g1";
  topic_id = "t1";
  principal = "engineering";
  permission = Action.write;
  granted_by = "alice";
  created_at = 0;
}

abbrev pub document : String → String → Document
document id topic_id = record {
  id = id;
  topic_id = topic_id;
  slug = id;
  name = id;
  doc_type = "reference";
  status = ready;
  metadata = [];
  created_at = 0;
  updated_at = 0;
  url = none;
  author = none;
  published_at = none;
}

abbrev pub chunk : String → String → Chunk
chunk id document_id = record {
  id = id;
  document_id = document_id;
  sequence = pos 1;
  content = 1 ∷ [];
  embedding_id = some id;
  status = ChunkStatus.active;
  compacted_by = none;
  metadata = [];
  created_at = 0;
}

abbrev pub embedding : String → Embedding
embedding id = record { chunk_id = id; embedding = 1 ∷ []; metadata = [] }

abbrev pub job : String → ℕ → ProcessingJob
job id created_at = record {
  id = id;
  document_id = "d1";
  job_type = "embedding";
  status = queued;
  progress = [];
  error = none;
  started_at = none;
  completed_at = none;
  created_at = created_at;
}

abbrev pub tables : Db
tables = record {
  topics = topic "t1" "alice" ∷ topic "t2" "carol" ∷ [];
  grants = engineering_writes ∷ [];
  documents = document "d1" "t1" ∷ document "d2" "t2" ∷ [];
  contents = [];
  chunks = chunk "c1" "d1" ∷ chunk "c2" "d1" ∷ chunk "c3" "d2" ∷ [];
  links = [];
  compactions = [];
  jobs = job "j1" 8 ∷ job "j2" 5 ∷ [];
  memories = [];
  embeddings = embedding "c1" ∷ embedding "c2" ∷ embedding "c3" ∷ [];
  accounts = [];
  account_keys = [];
  api_key_configs = [];
  llm_configs = [];
  embedding_configs = [];
  extraction_prompt_configs = [];
  vector_backend_configs = [];
}

abbrev pub world : World
world = record { env = healthy; tick = 0; db = tables }
