-- ===== src/ExpertCache/Pool/Pins.antt =====
-- A call that touches no more experts than the pool has slots never evicts one of them.
use questwend.Prelude.{
  ℕ, zero, suc, ◌+◌, ◌*◌, ◌≤◌, ◌<◌, ◌≡◌, refl, sym, ◌∙◌, inl, inr, List, [], ◌∷◌, Bool, false,
  Option, none, some, ◌==◌, ltb, if◌then◌else◌, length, get_or, set, All, arith, Bool-cases,
}
use questwend.Prelude.Dict.{
  nat_key, lookup, insert, lookup-erase, lookup-insert, lookup-insert_self,
}
use questwend.ExpertCache.Pool.{
  Pool, Counters, next, bump, count_up, drop_slot, install, slot_for, u64_max,
}
use questwend.ExpertCache.Pool.Residency.{Consistent-miss, get_or-set, Consistent}
use questwend.ExpertCache.Pool.Victim.{pick_victim_total}
use questwend.ExpertCache.Pool.SlotFor.{next_lem, held_inside}
use questwend.ExpertCache.Pool.Recency.{IsLeastRecent, pick_victim-IsLeastRecent}

-- How many slots were touched after `start`.
unfoldable pub newer : ℕ → List ℕ → ℕ
newer start [] = 0
newer start (t ∷ clks) = let rest = newer start clks in if ltb start t then suc rest else rest

newer-set :
    (start : ℕ) (clks : List ℕ) (i v : ℕ) → newer start (set clks i v) ≤ newer start clks + 1
unfolding newer
newer-set start [] i v = omega arith
newer-set start (t ∷ clks) zero v = ground arith
newer-set start (t ∷ clks) (suc i) v = ground (arith, newer-set start clks i v)

-- Fewer than all are new, so there is an old one.
newer_old :
    (start : ℕ) (clks : List ℕ)
    → newer start clks < length clks
    → (i : ℕ) × (i < length clks) × (get_or clks i 0 ≤ start)
unfolding newer
newer_old start [] h = absurd (omega arith)
newer_old start (t ∷ clks) h = elim (Bool-cases (ltb start t)) [
  | inl new ↦
      let (i, low, e) = newer_old start clks (ground (arith, new)) in (suc i, omega arith, e)
  | inr old ↦ (0, omega arith, ground arith)
]

module _ {Slab : Type 0} (fetch : ℕ → ℕ → ℕ → Slab) (role n_keys : ℕ) where
  -- The key is at the slot, and was touched after `start`.
  abbrev pub Pin : ℕ → Pool Slab → ℕ × ℕ → Type 0
  Pin start pool p = (lookup p.0 pool.key2slot ≡ some p.1) × (start < get_or pool.clk p.1 0)

  victim_not_pinned :
      (start : ℕ) (c : Counters) (pool : Pool Slab) (v : ℕ) (p : ℕ × ℕ)
      → Consistent fetch role n_keys c pool
      → newer start pool.clk < pool.n_slots
      → IsLeastRecent pool v
      → Pin start pool p
      → (v == p.1) ≡ false
  victim_not_pinned start c pool v p ok few (inl empty) (at, new) =
      ground (arith, empty, ok.back p.0 p.1 at)
  victim_not_pinned start c pool v p ok few (inr least) (at, new) =
      let (i, low, old) = newer_old start pool.clk (omega (arith, ok.clk_length)) in
      ground (arith, least i low)

  drop_slot_keeps :
      (c : Counters) (pool : Pool Slab) (v : ℕ) (k s : ℕ)
      → Consistent fetch role n_keys c pool
      → (v == s) ≡ false
      → lookup k pool.key2slot ≡ some s
      → lookup k (drop_slot c pool v).1.key2slot ≡ some s
  unfolding drop_slot lookup
  drop_slot_keeps c pool v k s ok other at = go (get_or pool.slot2key v none) refl
    where
      go :
          (held : Option ℕ)
          → get_or pool.slot2key v none ≡ held
          → lookup k (drop_slot c pool v).1.key2slot ≡ some s
      go none e = rw (drop_slot, e) at
      go (some j) e =
          rw (drop_slot, e) (ground (arith, lookup-erase k j pool.key2slot, ok.forth j v e))

  drop_slot_same :
      (c : Counters) (pool : Pool Slab) (v : ℕ)
      → ((drop_slot c pool v).1.clk ≡ pool.clk)
        × ((drop_slot c pool v).0.clock ≡ c.clock)
        × ((drop_slot c pool v).0.quota_on ≡ c.quota_on)
  unfolding drop_slot
  drop_slot_same c pool v = go (get_or pool.slot2key v none) refl
    where
      go :
          (held : Option ℕ)
          → get_or pool.slot2key v none ≡ held
          → ((drop_slot c pool v).1.clk ≡ pool.clk)
            × ((drop_slot c pool v).0.clock ≡ c.clock)
            × ((drop_slot c pool v).0.quota_on ≡ c.quota_on)
      go none e = rw (drop_slot, e) (refl, refl, refl)
      go (some j) e = rw (drop_slot, e) (refl, refl, refl)

  All-map :
      (P Q : ℕ × ℕ → Type 0) (ps : List (ℕ × ℕ)) → ((p : ℕ × ℕ) → P p → Q p) → All P ps → All Q ps
  All-map P Q [] f h = tt
  All-map P Q (p ∷ ps) f (hp, hs) = (f p hp, All-map P Q ps f hs)

  touched :
      (start now slot s : ℕ) (clks : List ℕ)
      → slot < length clks
      → start < now
      → start < get_or clks s 0
      → start < get_or (set clks slot now) s 0
  touched start now slot s clks inside new old = ground (arith, get_or-set clks slot s now 0 inside)

  -- There is an outcome, it keeps the old pins and adds one.
  abbrev pub IsKept :
      ℕ → Bool → Pool Slab → List (ℕ × ℕ) → ℕ → Option (Counters × Pool Slab × ℕ) → Type 0
  IsKept start on pool pins key none = ⊥
  IsKept start on pool pins key (some (c', pool', slot)) =
      All (Pin start pool') ((key, slot) ∷ pins)
      × (newer start pool'.clk ≤ newer start pool.clk + 1)
      × (c'.quota_on ≡ on)

  Pin-kept :
      (start : ℕ) (c : Counters) (pool : Pool Slab) (v key now : ℕ) (p : ℕ × ℕ)
      → Consistent fetch role n_keys c pool
      → newer start pool.clk < pool.n_slots
      → IsLeastRecent pool v
      → v < length pool.clk
      → start < now
      → lookup key pool.key2slot ≡ none
      → Pin start pool p
      → (lookup p.0 (insert key v (drop_slot c pool v).1.key2slot) ≡ some p.1)
        × (start < get_or (set (drop_slot c pool v).1.clk v now) p.1 0)
  Pin-kept start c pool v key now p ok few least room later new (at, old) =
      let other = victim_not_pinned start c pool v p ok few least (at, old) in
      let kept = drop_slot_keeps c pool v p.0 p.1 ok other at in
      let (same_clk, _, _) = drop_slot_same c pool v in
      (
        ground (arith, lookup-insert p.0 key v (drop_slot c pool v).1.key2slot, kept, new, at),
        rw same_clk (touched start now v p.1 pool.clk room later old),
      )

  install-IsKept :
      (start : ℕ) (pins : List (ℕ × ℕ)) (c : Counters) (pool : Pool Slab) (key layer expert : ℕ)
      → c.quota_on ≡ false
      → 0 < pool.n_slots
      → c.clock < u64_max
      → start ≤ c.clock
      → newer start pool.clk < pool.n_slots
      → lookup key pool.key2slot ≡ none
      → Consistent fetch role n_keys c pool
      → All (Pin start pool) pins
      → IsKept start c.quota_on pool pins key (install fetch c pool key layer expert role)
  unfolding install
  install-IsKept start pins c pool key layer expert off some_slot early began few new ok pinned =
      let (v, e, inside) =
        pick_victim_total c pool layer some_slot ok.keys_length ok.clk_length
          (omega (arith, ok.not_newer 0)) in
      let least =
        pick_victim-IsLeastRecent c pool layer v off (ok.keys_length ∙ sym ok.clk_length) e in
      let (same_clk, same_clock, same_on) = drop_slot_same c pool v in
      let later : start < next c.clock = omega (arith, next_lem c.clock early) in
      let room : v < length pool.clk = omega (arith, ok.clk_length) in
      rw (install, e, same_clk, same_clock)
        (
          (
            (
              lookup-insert_self key v (drop_slot c pool v).1.key2slot,
              ground (arith, get_or-set pool.clk v v (next c.clock) 0 room),
            ),
            All-map (Pin start pool) _ pins
                (λ p h.
                  Pin-kept start c pool v key (next (drop_slot c pool v).0.clock) p ok few least
                    room (rw same_clock later) new h)
                pinned,
          ),
          newer-set start pool.clk v (next c.clock),
          same_on,
        )

  -- In a call that began at time `start`, with quotas off, while fewer slots than the pool has were
  -- touched since: `slot_for` gives a slot and leaves every expert that the call asked for before in the slot that it
  -- was given, and the new one joins them.
  pub slot_for-IsKept :
      (start : ℕ) (pins : List (ℕ × ℕ)) (c : Counters) (pool : Pool Slab) (layer expert : ℕ)
      → c.quota_on ≡ false
      → c.clock < u64_max
      → start ≤ c.clock
      → newer start pool.clk < pool.n_slots
      → Consistent fetch role n_keys c pool
      → All (Pin start pool) pins
      → IsKept start c.quota_on pool pins
          (layer * c.n_expert + expert)
          (slot_for fetch c pool layer expert role)
  unfolding slot_for
  slot_for-IsKept start pins c pool layer expert off early began few ok pinned =
      go (lookup k pool.key2slot) refl
    where
      k : ℕ
      k = layer * c.n_expert + expert

      go :
          (held : Option ℕ)
          → lookup k pool.key2slot ≡ held
          → IsKept start c.quota_on pool pins k (slot_for fetch c pool layer expert role)
      go none e =
          let c₁ = record c { misses = next c.misses; l_misses = bump c.l_misses layer } in
          let counted = record pool { count = count_up k pool.count } in
          rw (slot_for, e)
            (install-IsKept start pins c₁ counted k layer expert off (omega arith) early began few e
              (Consistent-miss fetch role n_keys c pool (next c.misses) (bump c.l_misses layer)
                (count_up k pool.count) ok)
              pinned)
      go (some slot) e =
          let later : start < next c.clock = omega (arith, next_lem c.clock early) in
          let room : slot < length pool.clk = omega (
            arith,
            held_inside pool.slot2key slot k (ok.back k slot e),
            ok.keys_length,
            ok.clk_length,
          ) in
          rw (slot_for, e)
            (
              (
                (e, ground (arith, get_or-set pool.clk slot slot (next c.clock) 0 room)),
                All-map (Pin start pool) _ pins
                    (λ p h. (h.0, touched start (next c.clock) slot p.1 pool.clk room later h.1))
                    pinned,
              ),
              newer-set start pool.clk slot (next c.clock),
              refl,
            )
