-- ===== src/Retrieval/Search/Assembly.antt =====
-- `assemble` of internal/retrieval/search.go: where each result comes from.
use creel.Base.{String, List, [], ◌∷◌, Option, none, some, ◌≡◌, refl, inl, inr, Memᴰ, either-Memᴰ}
use creel.Store.Rows.{Chunk, Document}
use creel.Store.Vectors.Similar.{SearchResult}
use creel.Retrieval.Search.{SearchHit, hit, hit_in, assemble}

-- Where a result comes from.
pub record Assembled (chunks : String → Option Chunk) (topics : String → Option String)
    (docs : String → Option Document) (found : List SearchResult) (h : SearchHit) : Type 0 where
  pub origin : SearchResult
  pub among : Memᴰ origin found
  pub of_chunk : chunks origin.chunk_id ≡ some h.chunk
  pub of_topic : topics h.chunk.document_id ≡ some h.topic_id
  pub of_document : docs h.chunk.document_id ≡ h.document

module _ (chunks : String → Option Chunk) (topics : String → Option String)
    (docs : String → Option Document) where
  Assembled-hit_in :
      (r : SearchResult) (rs : List SearchResult) (c : Chunk) (o : Option String) (h : SearchHit)
      → chunks r.chunk_id ≡ some c
      → topics c.document_id ≡ o
      → Memᴰ h (hit_in docs r c o)
      → Assembled chunks topics docs (r ∷ rs) h
  Assembled-hit_in r rs c none h e f m = elim m [ ]
  Assembled-hit_in r rs c (some t) h e f (Memᴰ.head x) = record {
    origin = r;
    among = Memᴰ.head refl;
    of_chunk = rw x e;
    of_topic = rw x f;
    of_document = rw x refl;
  }
  Assembled-hit_in r rs c (some t) h e f (Memᴰ.tail m) = elim m [ ]

  Assembled-hit :
      (r : SearchResult) (rs : List SearchResult) (o : Option Chunk) (h : SearchHit)
      → chunks r.chunk_id ≡ o
      → Memᴰ h (hit topics docs r o)
      → Assembled chunks topics docs (r ∷ rs) h
  Assembled-hit r rs none h e m = elim m [ ]
  Assembled-hit r rs (some c) h e m = Assembled-hit_in r rs c (topics c.document_id) h e refl m

  pub assemble-Assembled :
      (found : List SearchResult) (h : SearchHit)
      → Memᴰ h (assemble chunks topics docs found)
      → Assembled chunks topics docs found h
  unfolding assemble
  assemble-Assembled [] h m = elim m [ ]
  assemble-Assembled (r ∷ rs) h m =
      elim (either-Memᴰ (hit topics docs r (chunks r.chunk_id)) _ h m) [
        | inl n ↦ Assembled-hit r rs (chunks r.chunk_id) h refl n
        | inr n ↦
            let a = assemble-Assembled rs h n in
            record {
              origin = a.origin;
              among = Memᴰ.tail a.among;
              of_chunk = a.of_chunk;
              of_topic = a.of_topic;
              of_document = a.of_document;
            }
      ]
