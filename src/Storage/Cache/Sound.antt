-- ===== src/Storage/Cache/Sound.antt =====
-- The invariant of the weight cache, src/storage/cache.c: its index, and the bytes that it serves.
pub mod Moves
pub mod Serve
pub mod Pending
pub mod Reserve
pub mod Arrive
pub mod Publish
