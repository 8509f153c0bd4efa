-- ===== src/Tokenizer.antt =====
-- core/tokenizer.cpp and core/tokenizer.h: the byte-level BPE tokenizer.
mod Tests
pub mod Utf8
pub mod ByteMap
pub mod Classes
pub mod Split
pub mod Pretokenize
pub mod Bpe
pub mod Encode
pub mod Access
