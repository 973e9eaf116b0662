-- ===== src/Store/Stats.antt =====
-- internal/store/stats.go: the number of rows in the main tables.
use creel.Base.{ℕ, length}
use creel.Exec.{Exec, ok}
use creel.Store.World.{World, Error, statement}

pub record EntityStats : Type 0 where
  pub api_key_configs : ℕ
  pub llm_configs : ℕ
  pub embedding_configs : ℕ
  pub extraction_prompt_configs : ℕ
  pub topics : ℕ
  pub system_accounts : ℕ
  pub documents : ℕ
  pub chunks : ℕ
  pub memories : ℕ

-- StatsStore.GetStats: one query.
unfoldable pub get_stats : Exec World Error EntityStats
unfolding statement
get_stats = statement "querying entity stats" λ w. (
  ok (record {
    api_key_configs = length w.db.api_key_configs;
    llm_configs = length w.db.llm_configs;
    embedding_configs = length w.db.embedding_configs;
    extraction_prompt_configs = length w.db.extraction_prompt_configs;
    topics = length w.db.topics;
    system_accounts = length w.db.accounts;
    documents = length w.db.documents;
    chunks = length w.db.chunks;
    memories = length w.db.memories;
  }),
  w.db,
)
