-- ===== src/Formats.antt =====
-- The containers of src/formats.
pub mod Gguf
