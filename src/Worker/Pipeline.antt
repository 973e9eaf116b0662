-- ===== src/Worker/Pipeline.antt =====
-- The pipeline of internal/worker from an uploaded file to a document that can be searched:
-- extraction.go, chunking.go and embedding.go, one after the other.
pub mod Achieves
pub mod Statements
pub mod Stages
pub mod Vectors
pub mod Embedded
pub mod Listed
pub mod Delivery
