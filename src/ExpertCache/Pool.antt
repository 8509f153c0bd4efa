-- ===== src/ExpertCache/Pool.antt =====
-- core/expert_cache.cpp and core/expert_cache.h: a slot pool, `drop_slot`, `pick_victim`, `install`
-- and `slot_for`. An `int` that is -1 for "none" is an `Option`; the quotas and the occupancy, which
-- are compared and counted down, are integers. `none` as the result of an operation is the index -1
-- that the code would use when no slot can be chosen.
pub mod Victim
pub mod Residency
pub mod SlotFor
pub mod Fresh
pub mod Recency
pub mod Pins
use questwend.Prelude.{
  ℕ, zero, suc, ◌+◌, ◌-◌, ◌*◌, ◌/◌, ◌%◌, ◌^◌, List, [], ◌∷◌, Bool, true, false, ◌&&◌, ◌||◌, not,
  Option, none, some, ltb, leb, ◌==◌, if◌then◌else◌, get_elem?, get_or, set,
}
use questwend.Prelude.Dict.{Dict, nat_key, lookup, insert, erase}
use questwend.Prelude.Int.{ℤ, pos, negsuc, ltb_ℤ, ◌+ℤ◌, ◌-ℤ◌}

-- `struct Pool`; `slabs` is the content of the tensor `t`, one slab to a slot.
pub record Pool (Slab : Type 0) : Type 0 where
  pub role : ℕ
  pub n_slots : ℕ
  pub slabs : List Slab
  pub key2slot : Dict ℕ ℕ
  pub slot2key : List (Option ℕ)
  pub clk : List ℕ
  pub count : Dict ℕ ℕ
  pub slot_of : List ℕ
  pub quota : List ℤ
  pub occ : List ℤ

-- The members of the cache that an operation on a pool reads and writes. The time and the bytes of
-- the fetches, `fetch_ms` and `fetch_bytes`, are counted where a slab is filled and not here.
pub record Counters : Type 0 where
  pub n_expert : ℕ
  pub quota_on : Bool
  pub clock : ℕ
  pub hits : ℕ
  pub misses : ℕ
  pub evictions : ℕ
  pub l_hits : List ℕ
  pub l_misses : List ℕ
  pub l_evict : List ℕ

-- `n + 1` in `uint64_t`
unfoldable pub next : ℕ → ℕ
next n = (n + 1) % 2 ^ 64

-- `v[i]++`
unfoldable pub bump : List ℕ → ℕ → List ℕ
bump v i = set v i (next (get_or v i 0))

abbrev pub shift : List ℤ → ℕ → ℤ → List ℤ
shift v i d = set v i (get_or v i (pos 0) +ℤ d)

-- `count[key]++`
unfoldable pub count_up : ℕ → Dict ℕ ℕ → Dict ℕ ℕ
count_up key m = insert key (elim (lookup key m) [ none ↦ 1 | some n ↦ next n ]) m

module _ {Slab : Type 0} where
  unfoldable pub drop_slot : Counters → Pool Slab → ℕ → Counters × Pool Slab
  drop_slot c pool slot = elim (get_or pool.slot2key slot none) [
    | none ↦ (c, pool)
    | some k ↦ (
      record c { l_evict = bump c.l_evict (k / c.n_expert); evictions = next c.evictions },
      record pool {
        occ = shift pool.occ (k / c.n_expert) (negsuc 0);
        slot_of = set pool.slot_of k 0;
        key2slot = erase k pool.key2slot;
        slot2key = set pool.slot2key slot none;
      },
    )
  ]

  -- May a slot of layer `kl` be taken for `layer`?
  unfoldable pub eligible : Counters → Pool Slab → Bool → ℕ → ℕ → Bool
  eligible c pool self layer kl =
      if c.quota_on
      then if self
        then kl == layer
        else ltb_ℤ (get_or pool.quota kl (pos 0)) (get_or pool.occ kl (pos 0))
      else true

  -- Has `layer` used up its quota?
  unfoldable pub at_quota : Counters → Pool Slab → ℕ → Bool
  at_quota c pool layer =
      let quota = get_or pool.quota layer (negsuc 0) in
      c.quota_on && not (ltb_ℤ quota (pos 0)) && not (ltb_ℤ (get_or pool.occ layer (pos 0)) quota)

-- How the first loop of `pick_victim` ends: with a free slot, or with the least recent of the
-- eligible slots and its time.
pub data Scan : Type 0 where
  free : ℕ → Scan
  scanned : Option ℕ → ℕ → Scan

-- The first loop, at slot `s`, over the slots that are left.
unfoldable pub scan_slots : (ℕ → Bool) → List (Option ℕ) → List ℕ → ℕ → Option ℕ → ℕ → Scan
scan_slots may_take [] clks s victim best = scanned victim best
scan_slots may_take (none ∷ keys) clks s victim best = free s
scan_slots may_take (some k ∷ keys) [] s victim best = scanned victim best
scan_slots may_take (some k ∷ keys) (t ∷ clks) s victim best =
    let better = may_take k && ltb t best in
    scan_slots may_take keys clks (s + 1) (if better then some s else victim)
      (if better then t else best)

-- The second loop: the least recent slot of all.
unfoldable pub scan_lru : List ℕ → ℕ → Option ℕ → ℕ → Option ℕ
scan_lru [] s victim best = victim
scan_lru (t ∷ clks) s victim best =
    scan_lru clks (s + 1) (if ltb t best then some s else victim) (if ltb t best then t else best)

-- `UINT64_MAX`
abbrev pub u64_max : ℕ
u64_max = 2 ^ 64 - 1

module _ {Slab : Type 0} where
  unfoldable pub pick_victim : Counters → Pool Slab → ℕ → Option ℕ
  pick_victim c pool layer =
      let self = at_quota c pool layer in
      elim (scan_slots (λ k. eligible c pool self layer (k / c.n_expert)) pool.slot2key pool.clk 0
        none u64_max) [
          | free s ↦ some s
          | scanned victim best ↦ elim victim [
            | some s ↦ some s
            | none ↦ scan_lru pool.clk 0 none best
          ]
        ]

  -- `install(pool, key, layer, expert, role)`: the new state and the slot. `fetch` gives the slab of a
  -- role, a layer and an expert in the model's files, which `fetch_slab` copies into the slot.
  unfoldable pub install :
      (ℕ → ℕ → ℕ → Slab) → Counters → Pool Slab → ℕ → ℕ → ℕ → ℕ → Option (Counters × Pool Slab × ℕ)
  install fetch c pool key layer expert role = elim (pick_victim c pool layer) [
    | none ↦ none
    | some victim ↦
        let (c', pool') = drop_slot c pool victim in
        some (
          record c' { clock = next c'.clock },
          record pool' {
            slabs = set pool'.slabs victim (fetch role layer expert);
            slot2key = set pool'.slot2key victim (some key);
            occ = shift pool'.occ layer (pos 1);
            clk = set pool'.clk victim (next c'.clock);
            key2slot = insert key victim pool'.key2slot;
            slot_of = set pool'.slot_of key victim;
          },
          victim,
        )
  ]

  -- `slot_for(pool, layer, expert, role)`
  unfoldable pub slot_for :
      (ℕ → ℕ → ℕ → Slab) → Counters → Pool Slab → ℕ → ℕ → ℕ → Option (Counters × Pool Slab × ℕ)
  slot_for fetch c pool layer expert role =
      let key = layer * c.n_expert + expert in
      let counted = record pool { count = count_up key pool.count } in
      elim (lookup key pool.key2slot) [
        | some slot ↦ some (
          record c { hits = next c.hits; l_hits = bump c.l_hits layer; clock = next c.clock },
          record counted { clk = set pool.clk slot (next c.clock) },
          slot,
        )
        | none ↦
            install fetch (record c { misses = next c.misses; l_misses = bump c.l_misses layer })
              counted key layer expert role
      ]
