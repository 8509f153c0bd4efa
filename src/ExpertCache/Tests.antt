-- ===== src/ExpertCache/Tests.antt =====
-- The expert cache's pool at concrete experts: two layers of three experts, two slots.
use questwend.Prelude.{ℕ, ◌≡◌, List, some, ◌+◌, ◌*◌, [], ◌∷◌, refl, false, arith}
use questwend.ExpertCache.Pool.{Pool, Counters, slot_for}
use questwend.ExpertCache.Ensure.{Pools, ensure_ram}
use questwend.ExpertCache.Ensure.Filled.{Rows, ensure_ram-Rows}
use questwend.ExpertCache.Pool.Residency.{Consistent}
use questwend.ExpertCache.Pool.Fresh.{fresh_pool, fresh_pool-Consistent}
use questwend.ExpertCache.Pool.Pins.{newer, IsKept, slot_for-IsKept}
use questwend.ExpertCache.Pool.SlotFor.{IsServed, slot_for-IsServed}

abbrev slab_of : ℕ → ℕ → ℕ → ℕ
slab_of role layer expert = 100 * role + 10 * layer + expert

abbrev start : Counters
start = record {
  n_expert = 3;
  quota_on = false;
  clock = 0;
  hits = 0;
  misses = 0;
  evictions = 0;
  l_hits = 0 ∷ 0 ∷ [];
  l_misses = 0 ∷ 0 ∷ [];
  l_evict = 0 ∷ 0 ∷ [];
}

abbrev two_slots : Pool ℕ
two_slots = fresh_pool 1 (0 ∷ 0 ∷ []) 2 3

slot_for-IsServed_example :
    IsServed slab_of 1 6 start two_slots 1 2 (slot_for slab_of start two_slots 1 2 1)
unfolding fresh_pool
slot_for-IsServed_example =
    slot_for-IsServed slab_of 1 6 start two_slots 1 2 (omega arith) (omega arith) (omega arith)
      (omega arith) (fresh_pool-Consistent slab_of start 1 (0 ∷ 0 ∷ []) 2 3)

slot_for-IsKept_example :
    IsKept slab_of 1 6 0 false two_slots [] 5 (slot_for slab_of start two_slots 1 2 1)
unfolding fresh_pool newer
slot_for-IsKept_example =
    slot_for-IsKept slab_of 1 6 0 [] start two_slots 1 2 refl (omega arith) (omega arith)
      (omega arith) (fresh_pool-Consistent slab_of start 1 (0 ∷ 0 ∷ []) 2 3) tt

abbrev three_pools : Pools ℕ
three_pools = record {
  gate = fresh_pool 0 (0 ∷ 0 ∷ []) 2 3;
  up = fresh_pool 1 (0 ∷ 0 ∷ []) 2 3;
  down = fresh_pool 2 (0 ∷ 0 ∷ []) 2 3;
}

ensure_ram-Rows_example :
    (c' : Counters) × (pools' : Pools ℕ) × (outs : List (ℕ × ℕ × ℕ)) × (ensure_ram slab_of start
        three_pools 1
        (2 ∷ 0 ∷ [])
      ≡ some (c', pools', outs))
    × Consistent slab_of 0 6 c' pools'.gate
    × Consistent slab_of 1 6 c' pools'.up
    × Consistent slab_of 2 6 c' pools'.down
    × Rows slab_of 6 0 3 2 pools' 1 (2 ∷ 0 ∷ []) outs
unfolding fresh_pool
ensure_ram-Rows_example =
    ensure_ram-Rows slab_of 6 2 start three_pools 1 (2 ∷ 0 ∷ []) refl
      (fresh_pool-Consistent slab_of start 0 (0 ∷ 0 ∷ []) 2 3)
      (fresh_pool-Consistent slab_of start 1 (0 ∷ 0 ∷ []) 2 3)
      (fresh_pool-Consistent slab_of start 2 (0 ∷ 0 ∷ []) 2 3) (omega arith) (omega arith)
      (omega arith) (omega arith) ((omega arith), ((omega arith), tt)) (omega arith) (omega arith)
