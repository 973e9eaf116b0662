-- ===== src/Retrieval.antt =====
-- internal/retrieval.
pub mod Search
pub mod Context
