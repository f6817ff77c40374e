-- ===== src/Storage/Streamer.antt =====
-- The layer streamer: src/storage/streamer.c and streamer.h. `block_of`, `slot_of`, `slot_pad` and the
-- buffers are functions of the index.
pub mod Sizing
pub mod Ring
mod Tests
