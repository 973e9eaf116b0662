-- ===== src/Store.antt =====
-- internal/store: the tables as lists of rows, and a statement of the database.
pub mod Rows
pub mod ConfigRows
pub mod World
pub mod Schema
pub mod Grants
pub mod Jobs
pub mod Accounts
pub mod Stats
pub mod Configs
pub mod Cascade
pub mod Topics
pub mod Chunks
pub mod Documents
pub mod Links
pub mod Compactions
pub mod Vectors
pub mod Memories
pub mod Reads
