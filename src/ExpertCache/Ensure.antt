-- ===== src/ExpertCache/Ensure.antt =====
-- core/expert_cache.cpp: `ensure` with the experts in host memory. The layer's three pools are
-- distinct, since a role is part of what selects a pool.
pub mod Ready
pub mod Filled
use questwend.Prelude.{ℕ, List, [], ◌∷◌, Option, none, some}
use questwend.ExpertCache.Pool.{Pool, Counters, slot_for}

-- `pools3`
pub record Pools (Slab : Type 0) : Type 0 where
  pub gate : Pool Slab
  pub up : Pool Slab
  pub down : Pool Slab

module _ {Slab : Type 0} (fetch : ℕ → ℕ → ℕ → Slab) where
  -- The loop over the roles for one expert; the slots are those of the gate, up and down pool.
  unfoldable pub ensure_expert :
      Counters → Pools Slab → ℕ → ℕ → Option (Counters × Pools Slab × (ℕ × ℕ × ℕ))
  ensure_expert c pools layer e = elim (slot_for fetch c pools.gate layer e 0) [
    | none ↦ none
    | some (c₁, gate, s₀) ↦ elim (slot_for fetch c₁ pools.up layer e 1) [
      | none ↦ none
      | some (c₂, up, s₁) ↦ elim (slot_for fetch c₂ pools.down layer e 2) [
        | none ↦ none
        | some (c₃, down, s₂) ↦
            some (c₃, record { gate = gate; up = up; down = down }, (s₀, s₁, s₂))
      ]
    ]
  ]

  -- `for (i = 0; i < n; ++i)`; the slots are in the order of the experts.
  unfoldable pub ensure_ram :
      Counters → Pools Slab → ℕ → List ℕ → Option (Counters × Pools Slab × List (ℕ × ℕ × ℕ))
  ensure_ram c pools layer [] = some (c, pools, [])
  ensure_ram c pools layer (e ∷ es) = elim (ensure_expert c pools layer e) [
    | none ↦ none
    | some (c', pools', slots) ↦ elim (ensure_ram c' pools' layer es) [
      | none ↦ none
      | some (c'', pools'', rest) ↦ some (c'', pools'', slots ∷ rest)
    ]
  ]
