-- ===== src/Server/Retrieval.antt =====
-- internal/server/retrieval.go: the RetrievalService, with its chunk store set.
use creel.Base.{
  ℕ, suc, ℤ, pos, String, List, [], ◌∷◌, Option, none, some, is_empty, not, ◌==◌, if◌then◌else◌,
}
use creel.Exec.{Result, ok, err, pure, fail, guard, ◌>>=◌, ◌>>◌}
use creel.Store.Rows.{Principal, Chunk, Json, Metadata, Vector}
use creel.Store.Chunks.Models.{get_embedding_models}
use creel.Store.Vectors.Similar.{Similarity}
use creel.Retrieval.Search
use creel.Retrieval.Search.{SearchHit}
use creel.Retrieval.Context
use creel.Server.Status.{Code, Handler, authenticate, or_internal, invalid_argument}

-- The embedding provider, which may be missing.
abbrev pub Embedder : Type 0
Embedder = Option (String → Result String Vector)

pub record SearchRequest : Type 0 where
  pub topic_ids : List String
  pub query_embedding : Vector
  pub query_text : String
  pub top_k : ℤ
  pub metadata_filter : Metadata
  pub exclude_document_ids : List String

abbrev pub embedded_text : Result String Vector → Handler Vector
embedded_text (ok v) = pure v
embedded_text (err e) = fail Code.internal

-- The embedding of the request, or else that of its text.
abbrev pub query_of : Embedder → Vector → String → Handler Vector
query_of embedder (x ∷ xs) text = pure (x ∷ xs)
query_of none [] text = if text == "" then pure [] else fail Code.failed_precondition
query_of (some embed) [] text = if text == "" then pure [] else embedded_text (embed text)

-- `if topK <= 0 { topK = 10 }`.
abbrev pub effective_top_k : ℤ → ℤ
effective_top_k (pos (suc n)) = pos (suc n)
effective_top_k _ = pos 10

unfoldable pub search :
    Similarity → Embedder → Option Principal → SearchRequest → Handler (List SearchHit)
search sim embedder p req = do
  caller ← authenticate p
  query ← query_of embedder req.query_embedding req.query_text
  guard (not (is_empty query)) invalid_argument
  or_internal (
      Search.search sim caller req.topic_ids query (effective_top_k req.top_k) req.metadata_filter
        req.exclude_document_ids)

-- The IDs of the chunks that have an embedding.
abbrev pub embedded_ids : List Chunk → List String
embedded_ids [] = []
embedded_ids (c ∷ cs) = elim c.embedding_id [
  | none ↦ embedded_ids cs
  | some e ↦ c.id ∷ embedded_ids cs
]

abbrev pub with_models : (String → Option Json) → List Chunk → List (Chunk × Option Json)
with_models models [] = []
with_models models (c ∷ cs) = (c, models c.id) ∷ with_models models cs

-- `enrichChunksWithEmbeddingModel`: an error is ignored.
unfoldable pub enrich : List Chunk → Handler (List (Chunk × Option Json))
unfolding get_embedding_models
enrich cs w = elim (get_embedding_models (embedded_ids cs) w).0 [
  | ok models ↦ (ok (with_models models cs), (get_embedding_models (embedded_ids cs) w).1)
  | err x ↦ (ok (with_models (λ id. none) cs), (get_embedding_models (embedded_ids cs) w).1)
]

-- A time that is not set is `none`.
unfoldable pub get_context :
    Option Principal → String → ℤ → Option ℕ → Handler (List (Chunk × Option Json))
get_context p document_id last since = do
  caller ← authenticate p
  guard (not (document_id == "")) invalid_argument
  chunks ← or_internal (Context.get_context caller document_id last since)
  enrich chunks
