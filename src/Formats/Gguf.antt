-- ===== src/Formats/Gguf.antt =====
-- The GGUF reader: src/formats/gguf.c and gguf.h. Bytes are numbers below 256 in lists.
pub mod Cursor
pub mod Types
pub mod Metadata
pub mod Header
pub mod Open
pub mod Access
pub mod Ends
pub mod Stable
pub mod Pool
pub mod Extents
pub mod Strings
pub mod Rounds
pub mod Prefix
mod Tests
