-- ===== src/Tokenizer.antt =====
-- The byte-level BPE tokenizer: src/tokenizer/bpe.c. Bytes are numbers below 256 in lists.
pub mod Map
pub mod Bytes
pub mod Split
pub mod State
pub mod Merge
pub mod Encode
pub mod Load
pub mod Chat
