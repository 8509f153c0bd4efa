-- ===== src/ExpertCache/Ensure/Filled.antt =====
-- What a call of `ensure` leaves: every expert asked for in the slots that the call returned.
use questwend.Prelude.{
  ℕ, suc, ◌+◌, ◌*◌, ◌/◌, ◌%◌, ◌≤◌, ◌<◌, ◌≡◌, refl, ap, ap₂, ◌∙◌, List, [], ◌∷◌, false, some, length,
  All, get_elem?, get_or, arith,
}
use mathlib.Core.Path.{subst}
use questwend.Prelude.Dict.{nat_key, lookup}
use questwend.ExpertCache.Pool.{Pool, Counters, u64_max}
use questwend.ExpertCache.Pool.Residency.{Consistent}
use questwend.ExpertCache.Pool.SlotFor.{key-div, key-mod}
use questwend.ExpertCache.Pool.Pins.{Pin, newer}
use questwend.ExpertCache.Ensure.{Pools, ensure_expert, ensure_ram}
use questwend.ExpertCache.Ensure.Ready.{Ready, InCall, slot_for-IsStep, Ready-later}

module _ {Slab : Type 0} (fetch : ℕ → ℕ → ℕ → Slab) (n_keys start ne n_slots : ℕ) where
  -- The slots asked for in each pool.
  record AllReady (c : Counters) (pools : Pools Slab)
      (pins : List (ℕ × ℕ) × List (ℕ × ℕ) × List (ℕ × ℕ)) : Type 0 where
    gate : Ready fetch n_keys start ne n_slots 0 c pools.gate pins.0
    up : Ready fetch n_keys start ne n_slots 1 c pools.up pins.1
    down : Ready fetch n_keys start ne n_slots 2 c pools.down pins.2

  ensure_expert-AllReady :
      (c : Counters) (pools : Pools Slab) (g u d : List (ℕ × ℕ)) (now m layer e : ℕ)
      → InCall fetch n_keys start ne n_slots c now
      → AllReady c pools (g, u, d)
      → length g ≡ m
      → length u ≡ m
      → length d ≡ m
      → m < n_slots
      → e < ne
      → layer * ne + e < n_keys
      → now + 3 ≤ u64_max
      → (c' : Counters) × (pools' : Pools Slab) × (s : ℕ × ℕ × ℕ) × (ensure_expert fetch c pools
            layer e
          ≡ some (c', pools', s))
        × InCall fetch n_keys start ne n_slots c' (now + 3)
        × AllReady c' pools'
            ((layer * ne + e, s.0) ∷ g, (layer * ne + e, s.1) ∷ u, (layer * ne + e, s.2) ∷ d)
  unfolding ensure_expert
  ensure_expert-AllReady c pools g u d now m layer e call ready eg eu ed room of_layer low early =
      let (c₁, gate, s₀, e₀, call₁, gate₁) =
        slot_for-IsStep fetch n_keys start ne n_slots 0 c pools.gate g now layer e call ready.gate
          (omega arith) of_layer low (omega arith) in
      let up₁ =
        Ready-later fetch n_keys start ne n_slots 1 c c₁ pools.up u now (now + 1) call call₁
          (omega arith) ready.up in
      let (c₂, up, s₁, e₁, call₂, up₂) =
        slot_for-IsStep fetch n_keys start ne n_slots 1 c₁ pools.up u (now + 1) layer e call₁ up₁
          (omega arith) of_layer low (omega arith) in
      let down₁ =
        Ready-later fetch n_keys start ne n_slots 2 c c₂ pools.down d now (now + 1 + 1) call call₂
          (omega arith) ready.down in
      let (c₃, down, s₂, e₂, call₃, down₃) =
        slot_for-IsStep fetch n_keys start ne n_slots 2 c₂ pools.down d (now + 1 + 1) layer e call₂
          down₁ (omega arith) of_layer low (omega arith) in
      (
        c₃,
        record { gate = gate; up = up; down = down },
        (s₀, s₁, s₂),
        rw (ensure_expert, e₀, e₁, e₂) refl,
        record {
          time = call₃.time ∙ omega arith;
          began = omega (arith, call.began);
          off = call₃.off;
          experts = call₃.experts;
        },
        record {
          gate =
              Ready-later fetch n_keys start ne n_slots 0 c₁ c₃ gate _ (now + 1) (now + 1 + 1 + 1)
                call₁ call₃ (omega arith) gate₁;
          up =
              Ready-later fetch n_keys start ne n_slots 1 c₂ c₃ up _ (now + 1 + 1) (now + 1 + 1 + 1)
                call₂ call₃ (omega arith) up₂;
          down = down₃;
        },
      )

  -- The slot holds the expert's slab, and the key's entry names it.
  abbrev pub Holds : ℕ → Pool Slab → ℕ → ℕ → ℕ → Type 0
  Holds role pool layer e slot =
      (get_elem? pool.slabs slot ≡ some (fetch role layer e))
      × (lookup (layer * ne + e) pool.key2slot ≡ some slot)

  -- Every expert is in the slots returned for it, in the three pools.
  abbrev pub Rows : Pools Slab → ℕ → List ℕ → List (ℕ × ℕ × ℕ) → Type 0
  Rows pools layer [] [] = Unit {0}
  Rows pools layer [] (s ∷ ss) = ⊥
  Rows pools layer (e ∷ es) [] = ⊥
  Rows pools layer (e ∷ es) (s ∷ ss) =
      Holds 0 pools.gate layer e s.0
      × Holds 1 pools.up layer e s.1
      × Holds 2 pools.down layer e s.2
      × Rows pools layer es ss

  Pin-Holds :
      (role : ℕ) (c : Counters) (pool : Pool Slab) (layer e slot : ℕ)
      → c.n_expert ≡ ne
      → e < ne
      → Consistent fetch role n_keys c pool
      → Pin fetch role n_keys start pool (layer * ne + e, slot)
      → Holds role pool layer e slot
  Pin-Holds role c pool layer e slot experts of_layer ok (at, new) =
      let k = layer * ne + e in
      let slab =
        subst (λ (m : ℕ). get_elem? pool.slabs slot ≡ some (fetch role (k / m) (k % m))) experts
          (ok.loaded k slot (ok.back k slot at)) in
      (
        slab
            ∙ ap some
                (ap₂ (fetch role) (key-div layer e ne of_layer) (key-mod layer e ne of_layer)),
        at,
      )

  -- The end of the call, `n` rounds on.
  abbrev IsEnsured :
      ℕ
      → ℕ
      → List (ℕ × ℕ)
      → List (ℕ × ℕ)
      → List (ℕ × ℕ)
      → List ℕ
      → Counters
      → Pools Slab
      → List (ℕ × ℕ × ℕ)
      → Type 0
  IsEnsured now layer g u d ids c' pools' outs =
      InCall fetch n_keys start ne n_slots c' (now + 3 * length ids)
      × (Consistent fetch 0 n_keys c' pools'.gate)
      × (Consistent fetch 1 n_keys c' pools'.up)
      × (Consistent fetch 2 n_keys c' pools'.down)
      × All (Pin fetch 0 n_keys start pools'.gate) g
      × All (Pin fetch 1 n_keys start pools'.up) u
      × All (Pin fetch 2 n_keys start pools'.down) d
      × Rows pools' layer ids outs

  ensure_ram-IsEnsured_from :
      (ids : List ℕ) (c : Counters) (pools : Pools Slab) (g u d : List (ℕ × ℕ)) (now m layer : ℕ)
      → InCall fetch n_keys start ne n_slots c now
      → AllReady c pools (g, u, d)
      → length g ≡ m
      → length u ≡ m
      → length d ≡ m
      → m + length ids ≤ n_slots
      → All (λ e. e < ne) ids
      → layer * ne + ne ≤ n_keys
      → now + 3 * length ids ≤ u64_max
      → (c' : Counters) × (pools' : Pools Slab) × (outs : List (ℕ × ℕ × ℕ)) × (ensure_ram fetch c
            pools layer ids
          ≡ some (c', pools', outs))
        × IsEnsured now layer g u d ids c' pools' outs
  unfolding ensure_ram
  ensure_ram-IsEnsured_from [] c pools g u d now m layer call ready eg eu ed room valid low early =
      (
        c,
        pools,
        [],
        refl,
        (
          record {
            time = call.time ∙ omega arith;
            began = omega (arith, call.began);
            off = call.off;
            experts = call.experts;
          },
          ready.gate.consistent,
          ready.up.consistent,
          ready.down.consistent,
          ready.gate.pinned,
          ready.up.pinned,
          ready.down.pinned,
          tt,
        ),
      )
  ensure_ram-IsEnsured_from (e ∷ es) c pools g u d now m layer call ready eg eu ed room
        (valid, valids) low early =
      let (c₁, pools₁, s, is₁, call₁, ready₁) =
        ensure_expert-AllReady c pools g u d now m layer e call ready eg eu ed (omega arith) valid
          (omega arith) (omega arith) in
      let k = layer * ne + e in
      let (c', pools', outs, is', (call', ok₀, ok₁, ok₂, (h₀, g'), (h₁, u'), (h₂, d'), rows)) =
        ensure_ram-IsEnsured_from es c₁ pools₁ ((k, s.0) ∷ g) ((k, s.1) ∷ u) ((k, s.2) ∷ d)
          (now + 3) (m + 1) layer call₁ ready₁ (omega arith) (omega arith) (omega arith)
          (omega arith) valids low (omega arith) in
      (
        c',
        pools',
        s ∷ outs,
        rw (ensure_ram, is₁, is') refl,
        (
          record {
            time = call'.time ∙ omega arith;
            began = omega (arith, call.began);
            off = call'.off;
            experts = call'.experts;
          },
          ok₀,
          ok₁,
          ok₂,
          g',
          u',
          d',
          (
            Pin-Holds 0 c' pools'.gate layer e s.0 call'.experts valid ok₀ h₀,
            Pin-Holds 1 c' pools'.up layer e s.1 call'.experts valid ok₁ h₁,
            Pin-Holds 2 c' pools'.down layer e s.2 call'.experts valid ok₂ h₂,
            rows,
          ),
        ),
      )

  -- No slot is newer than the call's start.
  newer_none : (clks : List ℕ) (now : ℕ) → ((s : ℕ) → get_or clks s 0 ≤ now) → newer now clks ≡ 0
  unfolding newer
  newer_none [] now h = refl
  newer_none (t ∷ clks) now h = ground (arith, h 0, newer_none clks now (λ s. h (suc s)))

module _ {Slab : Type 0} (fetch : ℕ → ℕ → ℕ → Slab) (n_keys n_slots : ℕ) where
  start-Ready :
      (role : ℕ) (c : Counters) (pool : Pool Slab)
      → Consistent fetch role n_keys c pool
      → n_slots ≤ pool.n_slots
      → Ready fetch n_keys c.clock c.n_expert n_slots role c pool []
  start-Ready role c pool ok size = record {
    consistent = ok;
    pinned = tt;
    few =
        omega
          (arith, newer_none fetch n_keys c.clock c.n_expert n_slots pool.clk c.clock ok.not_newer);
    size = size;
  }

  -- With quotas off, pools whose invariants hold, and no more experts than any of the pools has slots,
  -- `ensure` over the experts in host memory always returns, and when it has, each of the experts is
  -- in the slot that was returned for it, in all three pools: none was evicted for a later one. The
  -- invariants hold again. The experts and the layer are in range, and the clock stays in uint64_t.
  pub ensure_ram-Rows :
      (c : Counters) (pools : Pools Slab) (layer : ℕ) (ids : List ℕ)
      → c.quota_on ≡ false
      → Consistent fetch 0 n_keys c pools.gate
      → Consistent fetch 1 n_keys c pools.up
      → Consistent fetch 2 n_keys c pools.down
      → n_slots ≤ pools.gate.n_slots
      → n_slots ≤ pools.up.n_slots
      → n_slots ≤ pools.down.n_slots
      → length ids ≤ n_slots
      → All (λ e. e < c.n_expert) ids
      → layer * c.n_expert + c.n_expert ≤ n_keys
      → c.clock + 3 * length ids ≤ u64_max
      → (c' : Counters) × (pools' : Pools Slab) × (outs : List (ℕ × ℕ × ℕ)) × (ensure_ram fetch c
            pools layer ids
          ≡ some (c', pools', outs))
        × Consistent fetch 0 n_keys c' pools'.gate
        × Consistent fetch 1 n_keys c' pools'.up
        × Consistent fetch 2 n_keys c' pools'.down
        × Rows fetch n_keys c.clock c.n_expert n_slots pools' layer ids outs
  ensure_ram-Rows c pools layer ids off ok₀ ok₁ ok₂ size₀ size₁ size₂ room valid low early =
      let (c', pools', outs, e, (_, ok₀', ok₁', ok₂', _, _, _, rows)) =
        ensure_ram-IsEnsured_from fetch n_keys c.clock c.n_expert n_slots ids c pools [] [] []
          c.clock 0 layer (record { time = refl; began = omega arith; off = off; experts = refl })
          (record {
            gate = start-Ready 0 c pools.gate ok₀ size₀;
            up = start-Ready 1 c pools.up ok₁ size₁;
            down = start-Ready 2 c pools.down ok₂ size₂;
          })
          refl refl refl (omega arith) valid low early in
      (c', pools', outs, e, ok₀', ok₁', ok₂', rows)
