-- ===== src/ExpertCache/Pool/Recency.antt =====
-- Without quotas `pick_victim` takes a free slot or the least recent one.
use questwend.Prelude.{
  ℕ, zero, suc, ◌+◌, ◌/◌, ◌≤◌, ◌<◌, ◌≡◌, refl, ap, sym, ◌∙◌, ◌⊎◌, inl, inr, List, [], ◌∷◌, Bool,
  true, false, Option, none, some, ltb, length, get_or, arith, Bool-cases,
}
use questwend.ExpertCache.Pool.{
  Pool, Counters, Scan, free, scanned, scan_slots, scan_lru, pick_victim, u64_max, eligible,
  at_quota,
}

-- `v` and `best'` are what a scan of `clks` from slot `s` on makes of `victim` and `best`.
record Least (clks : List ℕ) (s : ℕ) (victim : Option ℕ) (best : ℕ) (v : Option ℕ) (best' : ℕ)
    : Type 0 where
  shrinks : best' ≤ best
  below : (i : ℕ) → i < length clks → best' ≤ get_or clks i 0
  where_from :
      (v ≡ victim) × (best' ≡ best) ⊎ (i : ℕ) × (v ≡ some (s + i)) × (get_or clks i 0 ≡ best')

abbrev LeastScan : List (Option ℕ) → List ℕ → ℕ → Option ℕ → ℕ → Scan → Type 0
LeastScan keys clks s victim best (free v) = (i : ℕ) × (v ≡ s + i) × (get_or keys i none ≡ none)
LeastScan keys clks s victim best (scanned v best') = Least clks s victim best v best'

below-cons :
    (b t : ℕ) (clks : List ℕ)
    → b ≤ t
    → ((i : ℕ) → i < length clks → b ≤ get_or clks i 0)
    → (i : ℕ) → i < length (t ∷ clks)
    → b ≤ get_or (t ∷ clks) i 0
below-cons b t clks le h zero low = le
below-cons b t clks le h (suc i) low = h i (omega arith)

Least-cons_better :
    (t : ℕ) (clks : List ℕ) (s : ℕ) (victim : Option ℕ) (best : ℕ) (v : Option ℕ) (best' : ℕ)
    → t < best
    → Least clks (s + 1) (some s) t v best'
    → Least (t ∷ clks) s victim best v best'
Least-cons_better t clks s victim best v best' lower h = record {
  shrinks = omega (arith, h.shrinks);
  below = below-cons best' t clks h.shrinks h.below;
  where_from = elim h.where_from [
    | inl (e, e') ↦ inr (0, e ∙ ap some (omega arith), sym e')
    | inr (i, e, e') ↦ inr (suc i, e ∙ ap some (omega arith), e')
  ];
}

Least-cons_worse :
    (t : ℕ) (clks : List ℕ) (s : ℕ) (victim : Option ℕ) (best : ℕ) (v : Option ℕ) (best' : ℕ)
    → best ≤ t
    → Least clks (s + 1) victim best v best'
    → Least (t ∷ clks) s victim best v best'
Least-cons_worse t clks s victim best v best' higher h = record {
  shrinks = h.shrinks;
  below = below-cons best' t clks (omega (arith, h.shrinks)) h.below;
  where_from = elim h.where_from [
    | inl e ↦ inl e
    | inr (i, e, e') ↦ inr (suc i, e ∙ ap some (omega arith), e')
  ];
}

scan_lru-Least :
    (clks : List ℕ) (s : ℕ) (victim : Option ℕ) (best : ℕ)
    → (best' : ℕ) × Least clks s victim best (scan_lru clks s victim best) best'
unfolding scan_lru
scan_lru-Least [] s victim best = (
  best,
  record {
    shrinks = omega arith;
    below = λ i low. absurd (omega arith);
    where_from = inl (refl, refl);
  },
)
scan_lru-Least (t ∷ clks) s victim best = elim (Bool-cases (ltb t best)) [
  | inl better ↦
      let (b, h) = scan_lru-Least clks (s + 1) (some s) t in
      rw better (b, Least-cons_better t clks s victim best _ b (ground arith) h)
  | inr worse ↦
      let (b, h) = scan_lru-Least clks (s + 1) victim best in
      rw worse (b, Least-cons_worse t clks s victim best _ b (ground arith) h)
]

LeastScan-cons_free :
    (k : Option ℕ) (t : ℕ) (keys : List (Option ℕ)) (clks : List ℕ) (s v : ℕ)
    → (i : ℕ) × (v ≡ s + 1 + i) × (get_or keys i none ≡ none)
    → (i : ℕ) × (v ≡ s + i) × (get_or (k ∷ keys) i none ≡ none)
LeastScan-cons_free k t keys clks s v (i, e, h) = (suc i, e ∙ omega arith, h)

LeastScan-cons_better :
    (k : Option ℕ) (t : ℕ) (keys : List (Option ℕ)) (clks : List ℕ) (s : ℕ) (victim : Option ℕ)
    (best : ℕ) (found : Scan)
    → t < best
    → LeastScan keys clks (s + 1) (some s) t found
    → LeastScan (k ∷ keys) (t ∷ clks) s victim best found
LeastScan-cons_better k t keys clks s victim best (free v) lower h =
    LeastScan-cons_free k t keys clks s v h
LeastScan-cons_better k t keys clks s victim best (scanned v b) lower h =
    Least-cons_better t clks s victim best v b lower h

LeastScan-cons_worse :
    (k : Option ℕ) (t : ℕ) (keys : List (Option ℕ)) (clks : List ℕ) (s : ℕ) (victim : Option ℕ)
    (best : ℕ) (found : Scan)
    → best ≤ t
    → LeastScan keys clks (s + 1) victim best found
    → LeastScan (k ∷ keys) (t ∷ clks) s victim best found
LeastScan-cons_worse k t keys clks s victim best (free v) higher h =
    LeastScan-cons_free k t keys clks s v h
LeastScan-cons_worse k t keys clks s victim best (scanned v b) higher h =
    Least-cons_worse t clks s victim best v b higher h

scan_slots-LeastScan :
    (may_take : ℕ → Bool) (keys : List (Option ℕ)) (clks : List ℕ) (s : ℕ) (victim : Option ℕ)
    (best : ℕ)
    → ((k : ℕ) → may_take k ≡ true)
    → length keys ≡ length clks
    → LeastScan keys clks s victim best (scan_slots may_take keys clks s victim best)
unfolding scan_slots
scan_slots-LeastScan may_take [] [] s victim best all e = record {
  shrinks = omega arith;
  below = λ i low. absurd (omega arith);
  where_from = inl (refl, refl);
}
scan_slots-LeastScan may_take [] (t ∷ clks) s victim best all e = absurd (omega arith)
scan_slots-LeastScan may_take (none ∷ keys) clks s victim best all e = (0, omega arith, refl)
scan_slots-LeastScan may_take (some k ∷ keys) [] s victim best all e = absurd (omega arith)
scan_slots-LeastScan may_take (some k ∷ keys) (t ∷ clks) s victim best all e =
    elim (Bool-cases (ltb t best)) [
      | inl better ↦
          rw (all k, better)
            (LeastScan-cons_better (some k) t keys clks s victim best _ (ground arith)
              (scan_slots-LeastScan may_take keys clks (s + 1) (some s) t all (omega arith)))
      | inr worse ↦
          rw (all k, worse)
            (LeastScan-cons_worse (some k) t keys clks s victim best _ (ground arith)
              (scan_slots-LeastScan may_take keys clks (s + 1) victim best all (omega arith)))
    ]

module _ {Slab : Type 0} where
  -- Free, or no newer than any other slot.
  abbrev pub IsLeastRecent : Pool Slab → ℕ → Type 0
  IsLeastRecent pool v =
      (get_or pool.slot2key v none ≡ none)
      ⊎ ((s : ℕ) → s < length pool.clk → get_or pool.clk v 0 ≤ get_or pool.clk s 0)

  scanned-IsLeastRecent :
      (pool : Pool Slab) (v top best : ℕ) (r : Option ℕ)
      → r ≡ some v
      → Least pool.clk 0 none top r best
      → IsLeastRecent pool v
  scanned-IsLeastRecent pool v top best r e h = elim h.where_from [
    | inl (none_found, _) ↦ absurd (ground (arith, e, none_found))
    | inr (i, at, is) ↦
        let here : v ≡ i = ground (arith, e, at) in
        inr (λ s inside. rw (here, is) (h.below s inside))
  ]

  eligible_all :
      (c : Counters) (pool : Pool Slab) (self : Bool) (layer kl : ℕ)
      → c.quota_on ≡ false
      → eligible c pool self layer kl ≡ true
  unfolding eligible
  eligible_all c pool self layer kl off = rw off refl

  pub pick_victim-IsLeastRecent :
      (c : Counters) (pool : Pool Slab) (layer v : ℕ)
      → c.quota_on ≡ false
      → length pool.slot2key ≡ length pool.clk
      → pick_victim c pool layer ≡ some v
      → IsLeastRecent pool v
  unfolding pick_victim
  pick_victim-IsLeastRecent c pool layer v off same =
      go (scan_slots may_take pool.slot2key pool.clk 0 none u64_max) (
        scan_slots-LeastScan may_take pool.slot2key pool.clk 0 none u64_max
          (λ k. eligible_all c pool (at_quota c pool layer) layer (k / c.n_expert) off) same)
    where
      may_take : ℕ → Bool
      may_take k = eligible c pool (at_quota c pool layer) layer (k / c.n_expert)

      pick : Scan → Option ℕ
      pick found = elim found [
        | free s ↦ some s
        | scanned victim best ↦ elim victim [
          | some s ↦ some s
          | none ↦ scan_lru pool.clk 0 none best
        ]
      ]

      go :
          (found : Scan)
          → LeastScan pool.slot2key pool.clk 0 none u64_max found
          → pick found ≡ some v
          → IsLeastRecent pool v
      go (free s) (i, e, h) is = let here : v ≡ i = ground (arith, e) in inl (rw here h)
      go (scanned (some w) best) h is = scanned-IsLeastRecent pool v u64_max best (some w) is h
      go (scanned none best) h is =
          let (b, h') = scan_lru-Least pool.clk 0 none best in
          scanned-IsLeastRecent pool v best b (scan_lru pool.clk 0 none best) is h'
