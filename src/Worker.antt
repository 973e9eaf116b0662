-- ===== src/Worker.antt =====
-- internal/worker: the background workers and the pool that runs them.
pub mod Text
pub mod Status
pub mod Extraction
pub mod Split
pub mod Chunking
pub mod Embedding
pub mod Failing
pub mod Pipeline
pub mod Compaction
pub mod Messages
pub mod Providers
pub mod Pool
pub mod Memory
