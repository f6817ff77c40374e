-- ===== src/Models.antt =====
-- The model layer: src/models/registry.c.
pub mod Registry
