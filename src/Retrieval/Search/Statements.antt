-- ===== src/Retrieval/Search/Statements.antt =====
-- What the statements of internal/retrieval/search.go return.
use creel.Base.{
  ℤ, pos, negsuc, String, Bool, true, false, List, [], ◌∷◌, some, ◌≡◌, refl, sym, ◌∙◌, arith, ◌&&◌,
  not, ◌==◌, ==_refl, is_empty, map, select, contains, Memᴰ, Memᴰ-exists, subst,
}
use creel.Exec.{ok}
use creel.Store.Rows.{Principal, Action, Chunk, Document, Vector, Embedding}
use creel.Store.World.{Db, statement}
use creel.Store.Schema.{IsConsistent}
use creel.Store.Grants.{grant_store}
use creel.Store.Chunks
use creel.Store.Chunks.{find_chunk, find_document, topic_of, is_active, in_topics}
use creel.Store.Documents
use creel.Store.Vectors.Similar.{
  Similarity, SearchResult, Filter, search_embeddings, id_passes, closest_first, as_result, limited,
  metadata_passes,
}
use creel.Auth.Authorizer.{accessible_topics}
use creel.Auth.Authorizer.Decision.{Allowed}
use creel.Auth.Authorizer.Access.{accessible_topics-Allowed, db-accessible_topics}
use creel.Store.Reads.{Reads}
use creel.Retrieval.Search.Filtering.{exists-closest_first, exists-as_result, exists-passing}

-- The test that `chunk_ids_by_topics` makes of a chunk.
abbrev pub searched : Db → List String → List String → Chunk → Bool
searched db ts excluded c =
    in_topics db ts c && (is_active c.status && not (contains excluded c.document_id))

pub accessible_topics-Reads :
    (p : Principal) (a : Action)
    → Reads
        (λ ts db. IsConsistent db → (t : String) → contains ts t ≡ true → Allowed db p t a)
        (accessible_topics grant_store p a)
accessible_topics-Reads p a = record {
  keeps = db-accessible_topics p a;
  gives = λ w ts h key t. (accessible_topics-Allowed p a w key ts t h).0;
}

pub chunk_ids_by_topics-Reads :
    (ts excluded : List String)
    → Reads
        (λ ids db. ids ≡ map (λ c. c.id) (select (searched db ts excluded) db.chunks))
        (Chunks.chunk_ids_by_topics ts excluded)
unfolding Chunks.chunk_ids_by_topics statement
chunk_ids_by_topics-Reads ts excluded = record {
  keeps = λ w. ground arith;
  gives = λ w a h. ground arith;
}

limited-contains :
    (sim : Similarity) (query : Vector) (ids : List String) (passes : Embedding → Bool) (top_k : ℤ)
    (es : List Embedding) (found : List SearchResult) (r : SearchResult)
    → is_empty ids ≡ false
    → limited top_k (
        map
          (as_result sim query)
          (closest_first sim query (select (λ e. id_passes ids e && passes e) es)))
      ≡ ok found
    → Memᴰ r found
    → contains ids r.chunk_id ≡ true
limited-contains sim query ids passes (negsuc n) es found r i h m = cc
limited-contains sim query ids passes (pos n) es found r i h m =
    exists-passing ids passes r.chunk_id es i (
      sym (exists-closest_first sim query (λ e. e.chunk_id == r.chunk_id) _)
      ∙ exists-as_result sim query r.chunk_id n _ (
          Memᴰ-exists (λ q. q.chunk_id == r.chunk_id) _ r (subst (Memᴰ r) (ground arith) m)
            (==_refl r.chunk_id)))

-- The backend returns only chunks that it was asked to search.
pub search_embeddings-Reads :
    (sim : Similarity) (query : Vector) (filter : Filter) (top_k : ℤ)
    → is_empty filter.chunk_ids ≡ false
    → Reads
        (λ found db.
          (r : SearchResult) → Memᴰ r found → contains filter.chunk_ids r.chunk_id ≡ true)
        (search_embeddings sim query filter top_k)
unfolding search_embeddings statement
search_embeddings-Reads sim query filter top_k n = record {
  keeps = λ w. ground arith;
  gives = λ w a h r m.
      limited-contains sim query filter.chunk_ids (metadata_passes sim filter.metadata) top_k
        w.db.embeddings a r n (ground arith) m;
}

pub chunks-Reads :
    (ids : List String)
    → Reads
        (λ f db. (id : String) (c : Chunk) → f id ≡ some c → find_chunk id db.chunks ≡ some c)
        (Chunks.get_multiple ids)
unfolding Chunks.get_multiple statement
chunks-Reads [] = record { keeps = λ w. refl; gives = λ w f h id c e. ground arith }
chunks-Reads (i ∷ ids) = record { keeps = λ w. ground arith; gives = λ w f h id c e. ground arith }

pub topics-Reads :
    (ids : List String)
    → Reads
        (λ f db.
          (id t : String) → f id ≡ some t → topic_of (find_document id db.documents) ≡ some t)
        (Chunks.document_topic_ids ids)
unfolding Chunks.document_topic_ids statement
topics-Reads [] = record { keeps = λ w. refl; gives = λ w f h id c e. ground arith }
topics-Reads (i ∷ ids) = record { keeps = λ w. ground arith; gives = λ w f h id c e. ground arith }

pub documents-Reads :
    (ids : List String)
    → Reads
        (λ f db.
          (id : String) (d : Document) → f id ≡ some d → find_document id db.documents ≡ some d)
        (Documents.get_multiple ids)
unfolding Documents.get_multiple statement
documents-Reads [] = record { keeps = λ w. refl; gives = λ w f h id c e. ground arith }
documents-Reads (i ∷ ids) = record {
  keeps = λ w. ground arith;
  gives = λ w f h id c e. ground arith;
}
