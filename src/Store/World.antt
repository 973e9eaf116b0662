-- ===== src/Store/World.antt =====
-- A database connection: the tables, what the environment decides, and one statement.
-- The driver, the clock and the UUID generator are parameters: `fails n` says whether the n-th
-- statement fails, `now n` and `new_id n` are what `now()` and the UUID default return in it.
use creel.Base.{ℕ, suc, String, Bool, List, Option, none, some, if◌then◌else◌}
use creel.Exec.{Exec, Result, ok, err}
use creel.Store.Rows.{
  Topic, Grant, Document, DocumentContent, Chunk, Link, CompactionRecord, ProcessingJob, Memory,
  Embedding, SystemAccount, SystemAccountKey,
}
use creel.Store.ConfigRows.{
  ApiKeyConfig, LlmConfig, EmbeddingConfig, ExtractionPromptConfig, VectorBackendConfig,
}

pub record Db : Type 0 where
  pub topics : List Topic
  pub grants : List Grant
  pub documents : List Document
  pub contents : List DocumentContent
  pub chunks : List Chunk
  pub links : List Link
  pub compactions : List CompactionRecord
  pub jobs : List ProcessingJob
  pub memories : List Memory
  pub embeddings : List Embedding
  pub accounts : List SystemAccount
  pub account_keys : List SystemAccountKey
  pub api_key_configs : List ApiKeyConfig
  pub llm_configs : List LlmConfig
  pub embedding_configs : List EmbeddingConfig
  pub extraction_prompt_configs : List ExtractionPromptConfig
  pub vector_backend_configs : List VectorBackendConfig

pub record Env : Type 0 where
  pub fails : ℕ → Bool
  pub now : ℕ → ℕ
  pub new_id : ℕ → String

pub record World : Type 0 where
  pub env : Env
  pub tick : ℕ
  pub db : Db

-- An error is its outermost message, up to the wrapped error.
abbrev pub Error : Type 0
Error = String

-- `pool.Query`, `pool.QueryRow` or `pool.Exec`: a failed statement changes nothing.
unfoldable pub statement : {A : Type 0} → Error → (World → Result Error A × Db) → Exec World Error A
statement msg f w =
    if w.env.fails w.tick
    then (err msg, record w { tick = suc w.tick })
    else (let (r, db') = f w in (r, record w { tick = suc w.tick; db = db' }))

-- `if err == pgx.ErrNoRows`: no row becomes the error of a missing one.
abbrev pub row_or : {A : Type 0} → Error → Option A → Result Error A
row_or msg none = err msg
row_or msg (some a) = ok a
