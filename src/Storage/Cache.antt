-- ===== src/Storage/Cache.antt =====
-- The keyed, slot-based weight cache: src/storage/cache.c with its types in src/storage/cache.h.
-- The arrays `slot_of`, `key_of`, `used_at`, `pinned`, `meta`, `pad` and `nbytes` are functions of the
-- index, and `arena` gives the bytes of each slot. A function that updates `*c` returns the new
-- cache beside its result. Wall-clock times and diagnostics on stderr are left out.
pub mod Types
pub mod Admit
pub mod Batch
pub mod Victim
pub mod Rule
pub mod Invariant
pub mod Sound
pub mod Run
pub mod Pinned
pub mod Sizes
pub mod Counts
pub mod StaleMeta
mod Tests
