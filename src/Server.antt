-- ===== src/Server.antt =====
-- internal/server: the gRPC services. A request is what the handler reads of it; the caller comes
-- from the context; a status is its code. Responses are the rows that the handlers convert.
pub mod Status
pub mod Guarded
pub mod Topic
pub mod Compaction
pub mod Chunk
pub mod Link
pub mod Document
pub mod Job
pub mod Memory
pub mod Api
pub mod Queries
pub mod Retrieval
pub mod Config
pub mod Admin
