-- ===== src/Semantic.antt =====
-- The semantic layer: src/skifer/semantic.
pub mod AccessPolicy
