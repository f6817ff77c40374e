-- ===== src/Storage.antt =====
-- The storage layer, src/storage/: the keyed weight cache and the layer streamer.
pub mod Cache
pub mod File
pub mod Streamer
