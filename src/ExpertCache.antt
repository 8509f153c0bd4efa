-- ===== src/ExpertCache.antt =====
-- core/expert_cache.cpp: the expert cache, RAM tier. `Pool` has a slot pool and the operations on
-- one pool, `Ensure` the operation on the three pools of a layer.
pub mod Pool
pub mod Ensure
mod Tests
