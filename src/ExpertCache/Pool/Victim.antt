-- ===== src/ExpertCache/Pool/Victim.antt =====
-- Which slot `pick_victim` chooses.
use questwend.Prelude.{
  ℕ, ◌+◌, ◌/◌, ◌≤◌, ◌<◌, ◌≡◌, refl, List, [], ◌∷◌, Bool, true, ◌&&◌, inl, inr, Option, none, some,
  ltb, length, get_or, arith, Bool-cases,
}
use mathlib.Core.Path.{subst}
use questwend.ExpertCache.Pool.{
  Pool, Counters, Scan, free, scanned, scan_slots, scan_lru, pick_victim, u64_max, eligible,
  at_quota,
}

-- The place of a victim is in the list.
abbrev Inside : Option ℕ → ℕ → Type 0
Inside none n = Unit {0}
Inside (some v) n = v < n

-- What the first loop keeps: a victim is a slot, and without one `best` is as at the start.
abbrev Kept : Option ℕ → ℕ → ℕ → ℕ → Type 0
Kept none best top n = best ≡ top
Kept (some v) best top n = v < n

abbrev InsideScan : Scan → ℕ → ℕ → Type 0
InsideScan (free s) top n = s < n
InsideScan (scanned v best) top n = Kept v best top n

scan_slots-InsideScan :
    (may_take : ℕ → Bool) (keys : List (Option ℕ)) (clks : List ℕ) (s : ℕ) (victim : Option ℕ)
    (best top n : ℕ)
    → s + length keys ≤ n
    → Kept victim best top n
    → InsideScan (scan_slots may_take keys clks s victim best) top n
unfolding scan_slots
scan_slots-InsideScan may_take [] clks s victim best top n fit old = old
scan_slots-InsideScan may_take (none ∷ keys) clks s victim best top n fit old = omega arith
scan_slots-InsideScan may_take (some k ∷ keys) [] s victim best top n fit old = old
scan_slots-InsideScan may_take (some k ∷ keys) (t ∷ clks) s victim best top n fit old =
    elim (Bool-cases (may_take k && ltb t best)) [
      | inl better ↦ rw better (
          scan_slots-InsideScan may_take keys clks (s + 1) (some s) t top n (omega arith)
            (omega arith))
      | inr worse ↦
          rw worse
            (scan_slots-InsideScan may_take keys clks (s + 1) victim best top n (omega arith) old)
    ]

scan_lru-Inside :
    (clks : List ℕ) (s : ℕ) (victim : Option ℕ) (best n : ℕ)
    → s + length clks ≤ n
    → Inside victim n
    → Inside (scan_lru clks s victim best) n
unfolding scan_lru
scan_lru-Inside [] s victim best n fit old = old
scan_lru-Inside (t ∷ clks) s victim best n fit old = elim (Bool-cases (ltb t best)) [
  | inl better ↦ rw better (scan_lru-Inside clks (s + 1) (some s) t n (omega arith) (omega arith))
  | inr worse ↦ rw worse (scan_lru-Inside clks (s + 1) victim best n (omega arith) old)
]

-- Once the second loop has a victim it keeps one.
scan_lru_keeps : (clks : List ℕ) (s v best : ℕ) → (w : ℕ) × (scan_lru clks s (some v) best ≡ some w)
unfolding scan_lru
scan_lru_keeps [] s v best = (v, refl)
scan_lru_keeps (t ∷ clks) s v best = elim (Bool-cases (ltb t best)) [
  | inl better ↦ rw better (scan_lru_keeps clks (s + 1) s t)
  | inr worse ↦ rw worse (scan_lru_keeps clks (s + 1) v best)
]

scan_lru-some :
    (clks : List ℕ) (s best : ℕ)
    → 0 < length clks
    → get_or clks 0 0 < best
    → (w : ℕ) × (scan_lru clks s none best ≡ some w)
unfolding scan_lru
scan_lru-some [] s best h low = absurd (omega arith)
scan_lru-some (t ∷ clks) s best h low =
    let better : ltb t best ≡ true = ground arith in rw better (scan_lru_keeps clks (s + 1) s t)

module _ {Slab : Type 0} where
  -- A pool with a slot gives one up, if its clock values are below the largest `uint64_t`: the loops
  -- end with a slot of the pool, with quotas or without.
  pub pick_victim_total :
      (c : Counters) (pool : Pool Slab) (layer : ℕ)
      → 0 < pool.n_slots
      → length pool.slot2key ≡ pool.n_slots
      → length pool.clk ≡ pool.n_slots
      → get_or pool.clk 0 0 < u64_max
      → (v : ℕ) × (pick_victim c pool layer ≡ some v) × (v < pool.n_slots)
  unfolding pick_victim
  pick_victim_total c pool layer room keys clks low =
      go (scan_slots may_take pool.slot2key pool.clk 0 none u64_max) (
        scan_slots-InsideScan may_take pool.slot2key pool.clk 0 none u64_max u64_max pool.n_slots
          (omega arith) refl)
    where
      may_take : ℕ → Bool
      may_take k = eligible c pool (at_quota c pool layer) layer (k / c.n_expert)

      pick : Scan → Option ℕ
      pick found = elim found [
        | free s ↦ some s
        | scanned victim best ↦ elim victim [
          | some s ↦ some s
          | none ↦ scan_lru pool.clk 0 none best
        ]
      ]

      go :
          (found : Scan)
          → InsideScan found u64_max pool.n_slots
          → (v : ℕ) × (pick found ≡ some v) × (v < pool.n_slots)
      go (free s) h = (s, refl, h)
      go (scanned (some v) best) h = (v, refl, h)
      go (scanned none best) h =
          let (w, e) = scan_lru-some pool.clk 0 u64_max (omega arith) low in
          let inside = scan_lru-Inside pool.clk 0 none u64_max pool.n_slots (omega arith) tt in
          (w, rw h e, subst (λ (r : Option ℕ). Inside r pool.n_slots) e inside)
