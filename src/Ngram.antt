-- ===== src/Ngram.antt =====
-- core/ngram_table.cpp: the PLE n-gram hash table. `Hash` models `hash_rows`, `Mode` the names of the
-- modes.
pub mod Hash
pub mod Mode
mod Tests
