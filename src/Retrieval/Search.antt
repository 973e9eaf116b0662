-- ===== src/Retrieval/Search.antt =====
-- internal/retrieval/search.go: the similarity search over what the caller may read.
pub mod Filtering
pub mod Statements
pub mod Assembly
pub mod Readable
use creel.Base.{
  is_empty, ◌++◌, ℕ, ℤ, String, Bool, List, [], ◌∷◌, Option, none, some, map, select, contains,
  if◌then◌else◌,
}
use creel.Exec.{Exec, Result, ok, err, pure, or_fail, ◌>>=◌}
use creel.Store.Rows.{Principal, Action, Chunk, Document, Metadata, Vector}
use creel.Store.World.{World, Error}
use creel.Store.Grants.{grant_store}
use creel.Store.Chunks
use creel.Store.Documents
use creel.Store.Vectors.Similar.{Similarity, SearchResult, search_embeddings}
use creel.Auth.Authorizer.{accessible_topics}

-- retrieval.Result.
pub record SearchHit : Type 0 where
  pub chunk : Chunk
  pub topic_id : String
  pub score : ℕ
  pub document : Option Document

-- The requested topics that are accessible; all that are, when none is requested.
unfoldable pub intersect : List String → List String → List String
intersect [] accessible = accessible
intersect (t ∷ ts) accessible = select (contains accessible) (t ∷ ts)

unfoldable pub resolve_topics : Principal → List String → Exec World Error (List String)
unfolding intersect
resolve_topics principal requested = do
  accessible ←
      or_fail (accessible_topics grant_store principal Action.read) "fetching accessible topics"
  pure (intersect requested accessible)

-- The documents of the chunks that were found. The source asks for each once, in any order.
unfoldable pub document_ids : (String → Option Chunk) → List SearchResult → List String
document_ids chunks [] = []
document_ids chunks (r ∷ rs) = elim (chunks r.chunk_id) [
  | none ↦ document_ids chunks rs
  | some c ↦ c.document_id ∷ document_ids chunks rs
]

-- Results without a chunk or a topic are passed over.
abbrev pub hit_in :
    (String → Option Document) → SearchResult → Chunk → Option String → List SearchHit
hit_in docs r c none = []
hit_in docs r c (some t) =
    record { chunk = c; topic_id = t; score = r.score; document = docs c.document_id } ∷ []

abbrev pub hit :
    (String → Option String)
    → (String → Option Document)
    → SearchResult
    → Option Chunk
    → List SearchHit
hit topics docs r none = []
hit topics docs r (some c) = hit_in docs r c (topics c.document_id)

unfoldable pub assemble :
    (String → Option Chunk)
    → (String → Option String)
    → (String → Option Document)
    → List SearchResult
    → List SearchHit
assemble chunks topics docs [] = []
assemble chunks topics docs (r ∷ rs) =
    hit topics docs r (chunks r.chunk_id) ++ assemble chunks topics docs rs

-- What follows the similarity search.
unfoldable pub fetch_hits : List SearchResult → Exec World Error (List SearchHit)
fetch_hits found = do
  chunks ← or_fail (Chunks.get_multiple (map (λ r. r.chunk_id) found)) "fetching chunks"
  topics ←
      or_fail (Chunks.document_topic_ids (document_ids chunks found)) "fetching document topics"
  docs ← or_fail (Documents.get_multiple (document_ids chunks found)) "fetching documents"
  pure (assemble chunks topics docs found)

unfoldable pub search :
    Similarity
    → Principal
    → List String
    → Vector
    → ℤ
    → Metadata
    → List String
    → Exec World Error (List SearchHit)
search sim principal topic_ids query top_k metadata excluded = do
  accessible ← resolve_topics principal topic_ids
  if is_empty accessible then pure [] else do
    chunk_ids ← or_fail (Chunks.chunk_ids_by_topics accessible excluded) "fetching chunk IDs"
    if is_empty chunk_ids then pure [] else do
      found ←
          or_fail
            (search_embeddings sim query (record { chunk_ids = chunk_ids; metadata = metadata })
              top_k)
            "searching vector backend"
      if is_empty found then pure [] else fetch_hits found
