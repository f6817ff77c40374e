-- ===== src/Io.antt =====
-- The readers of K3 checkpoints, src/io/: the shards with their index, and the experts in them.
pub mod Shards
pub mod Experts
