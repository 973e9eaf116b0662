-- ===== src/Vector.antt =====
-- internal/vector: what is kept of the backends for vectors.
pub mod Registry
