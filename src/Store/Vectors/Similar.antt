-- ===== src/Store/Vectors/Similar.antt =====
-- `Search` of internal/vector/pgvector/pgvector.go. What the pgvector extension and the JSON
-- containment of Postgres compute is a parameter.
use creel.Base.{
  ℕ, ℤ, pos, negsuc, String, Bool, true, List, [], ◌∷◌, ◌&&◌, map, take, select, contains,
  if◌then◌else◌,
}
use creel.Exec.{Exec, Result, ok, err}
use creel.Store.Rows.{Embedding, Metadata, Vector}
use creel.Store.World.{World, Error, statement}

-- `embedding <=> $1` as an order and as a score, and `metadata @> $1`.
pub record Similarity : Type 0 where
  pub at_most_as_far : Vector → Vector → Vector → Bool
  pub score : Vector → Vector → ℕ
  pub includes : Metadata → Metadata → Bool

-- vector.SearchResult; the score is a float's bit pattern.
pub record SearchResult : Type 0 where
  pub chunk_id : String
  pub score : ℕ

-- vector.Filter.
pub record Filter : Type 0 where
  pub chunk_ids : List String
  pub metadata : Metadata

-- An empty list or map is no filter.
abbrev pub id_passes : List String → Embedding → Bool
id_passes [] e = true
id_passes (i ∷ ids) e = contains (i ∷ ids) e.chunk_id

abbrev pub metadata_passes : Similarity → Metadata → Embedding → Bool
metadata_passes sim [] e = true
metadata_passes sim (kv ∷ m) e = sim.includes e.metadata (kv ∷ m)

abbrev pub insert_closest : Similarity → Vector → Embedding → List Embedding → List Embedding
insert_closest sim query e [] = e ∷ []
insert_closest sim query e (f ∷ fs) =
    let rest = insert_closest sim query e fs in
    if sim.at_most_as_far query e.embedding f.embedding then e ∷ f ∷ fs else f ∷ rest

unfoldable pub closest_first : Similarity → Vector → List Embedding → List Embedding
closest_first sim query [] = []
closest_first sim query (e ∷ es) = insert_closest sim query e (closest_first sim query es)

abbrev pub as_result : Similarity → Vector → Embedding → SearchResult
as_result sim query e = record { chunk_id = e.chunk_id; score = sim.score query e.embedding }

-- LIMIT: Postgres refuses a negative one.
abbrev pub limited : ℤ → List SearchResult → Result Error (List SearchResult)
limited (pos n) rs = ok (take n rs)
limited (negsuc n) rs = err "searching embeddings"

unfoldable pub search_embeddings :
    Similarity → Vector → Filter → ℤ → Exec World Error (List SearchResult)
unfolding statement closest_first
search_embeddings sim query filter top_k = statement "searching embeddings" λ w. (
  limited top_k (
      map (as_result sim query) (
        closest_first sim query (
          select (λ e. id_passes filter.chunk_ids e && metadata_passes sim filter.metadata e)
            w.db.embeddings))),
  w.db,
)
