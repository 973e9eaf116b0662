-- ===== src/Store/Chunks/Models.antt =====
-- `GetEmbeddingModels` of internal/store/chunk.go.
use creel.Base.{String, List, [], ◌∷◌, Option, none, some, contains, first, ◌==◌, if◌then◌else◌}
use creel.Exec.{Exec, ok}
use creel.Store.Rows.{Json, Embedding, lookup, null}
use creel.Store.World.{World, Error, statement}

-- `metadata->>'embedding_model' IS NOT NULL`: also a JSON null is NULL then.
abbrev not_null : Option Json → Option Json
not_null (some null) = none
not_null v = v

abbrev model_of : Option Embedding → Option Json
model_of none = none
model_of (some e) = not_null (lookup "embedding_model" e.metadata)

-- The map from chunks to the values of which the query returns the text.
unfoldable pub get_embedding_models : List String → Exec World Error (String → Option Json)
unfolding statement
get_embedding_models [] w = (ok (λ id. none), w)
get_embedding_models (i ∷ ids) w =
    statement "querying embedding models"
      (λ v. (
        ok (λ id.
            if contains (i ∷ ids) id
            then model_of (first (λ e. e.chunk_id == id) v.db.embeddings)
            else none),
        v.db,
      ))
      w
