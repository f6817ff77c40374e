-- ===== src/Kimi.antt =====
-- What is particular to the K3 model: src/cache/.
pub mod ExpertCache
pub mod Weights
