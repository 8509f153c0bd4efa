-- ===== src/ExpertCache/Pool/SlotFor.antt =====
-- What `slot_for` gives: a slot that holds the slab of the expert asked for, hit or miss.
use mathlib.Core.Path.{subst}
use native.Mathlib.Nat.{div-eq_of_lt, mod-eq_of_lt, mul-add-div_right, mul-add-mod_self_right}
use questwend.Prelude.{
  ℕ, zero, suc, ◌+◌, ◌*◌, ◌/◌, ◌%◌, ◌≤◌, ◌<◌, ◌≡◌, refl, ap, ap₂, sym, ◌∙◌, List, [], ◌∷◌, Option,
  none, some, length, length-set, get_elem?, get_elem?-set, get_or, set, arith,
}
use questwend.Prelude.Dict.{Dict, nat_key, lookup, insert, lookup-insert, lookup-insert_self}
use questwend.Prelude.Int.{ℤ, pos}
use questwend.ExpertCache.Pool.{
  shift, bump, Pool, Counters, next, count_up, drop_slot, install, slot_for, u64_max,
}
use questwend.ExpertCache.Pool.Residency.{
  Consistent-miss, get_or-set, Back-insert, Forth-insert, Loaded-fill, Consistent, drop_slot-Freed,
}
use questwend.ExpertCache.Pool.Victim.{pick_victim_total}

pub next_lem : (n : ℕ) → n < u64_max → next n ≡ n + 1
unfolding next
next_lem n h = mod-eq_of_lt (omega arith)

pub key-div : (layer expert ne : ℕ) → expert < ne → (layer * ne + expert) / ne ≡ layer
key-div layer expert ne h =
    mul-add-div_right (omega arith) layer expert
    ∙ ap (λ (k : ℕ). layer + k) (div-eq_of_lt h)
    ∙ omega arith

pub key-mod : (layer expert ne : ℕ) → expert < ne → (layer * ne + expert) % ne ≡ expert
key-mod layer expert ne h = mul-add-mod_self_right layer ne expert ∙ mod-eq_of_lt h

touch_bound :
    (clks : List ℕ) (v now old : ℕ)
    → v < length clks
    → ((s : ℕ) → get_or clks s 0 ≤ old)
    → old ≤ now
    → (s : ℕ) → get_or (set clks v now) s 0 ≤ now
touch_bound clks v now old inside bound le s =
    ground (arith, get_or-set clks v s now 0 inside, bound s)

pub held_inside : (keys : List (Option ℕ)) (s k : ℕ) → get_or keys s none ≡ some k → s < length keys
held_inside [] s k h = absurd (ground arith)
held_inside (x ∷ xs) zero k h = omega arith
held_inside (x ∷ xs) (suc s) k h = omega (arith, held_inside xs s k h)

module _ {Slab : Type 0} (fetch : ℕ → ℕ → ℕ → Slab) (role n_keys : ℕ) where
  -- The outcome of asking a pool for an expert's slot: there is one, it holds the slab that the files
  -- have for the expert, the key's entry names it in both tables, and the invariant holds after.
  pub record Served (n_slots ne clock layer expert : ℕ) (c : Counters) (pool : Pool Slab) (slot : ℕ)
      : Type 0 where
    pub in_pool : slot < n_slots
    pub holds : get_elem? pool.slabs slot ≡ some (fetch role layer expert)
    pub found : lookup (layer * ne + expert) pool.key2slot ≡ some slot
    pub in_table : get_or pool.slot_of (layer * ne + expert) 0 ≡ slot
    pub ticked : c.clock ≡ clock + 1
    pub same_experts : c.n_expert ≡ ne
    pub same_slots : pool.n_slots ≡ n_slots
    pub consistent : Consistent fetch role n_keys c pool

  abbrev pub IsServed : Counters → Pool Slab → ℕ → ℕ → Option (Counters × Pool Slab × ℕ) → Type 0
  IsServed c pool layer expert result =
      (c' : Counters) × (pool' : Pool Slab) × (slot : ℕ) × (result ≡ some (c', pool', slot))
      × Served pool.n_slots c.n_expert c.clock layer expert c' pool' slot

  module _ (c : Counters) (pool : Pool Slab) (layer expert : ℕ) where
    indexed-insert :
        (at : Dict ℕ ℕ) (table : List ℕ) (j v k s : ℕ)
        → j < n_keys
        → j < length table
        → ((k s : ℕ) → lookup k at ≡ some s → (k < n_keys) × (get_or table k 0 ≡ s))
        → lookup k (insert j v at) ≡ some s
        → (k < n_keys) × (get_or (set table j v) k 0 ≡ s)
    indexed-insert at table j v k s low inside old h =
        ground (arith, lookup-insert k j v at, get_or-set table j k v 0 inside, old k s)

    fill-Consistent :
        (v k : ℕ) (occ : List ℤ)
        → k ≡ layer * c.n_expert + expert
        → v < pool.n_slots
        → expert < c.n_expert
        → k < n_keys
        → c.clock < u64_max
        → get_or pool.slot2key v none ≡ none
        → lookup k pool.key2slot ≡ none
        → Consistent fetch role n_keys c pool
        → Consistent fetch role n_keys
            (record c { clock = next c.clock })
            (record pool {
              slabs = set pool.slabs v (fetch role layer expert);
              slot2key = set pool.slot2key v (some k);
              clk = set pool.clk v (next c.clock);
              key2slot = insert k v pool.key2slot;
              slot_of = set pool.slot_of k v;
              occ = occ;
            })
    fill-Consistent v k occ keyed inside of_layer low early free new ok =
        let room : v < length pool.slot2key = omega (arith, ok.keys_length) in
        let slab_room : v < length pool.slabs = omega (arith, ok.slabs_length) in
        let clk_room : v < length pool.clk = omega (arith, ok.clk_length) in
        let key_room : k < length pool.slot_of = omega (arith, ok.table_length) in
        let slab =
          ap₂ (fetch role)
            (sym (ap (λ (j : ℕ). j / c.n_expert) keyed ∙ key-div layer expert c.n_expert of_layer))
            (sym
              (ap (λ (j : ℕ). j % c.n_expert) keyed ∙ key-mod layer expert c.n_expert of_layer)) in
        record {
          keys_length = length-set pool.slot2key v (some k) ∙ ok.keys_length;
          clk_length = length-set pool.clk v (next c.clock) ∙ ok.clk_length;
          slabs_length = length-set pool.slabs v (fetch role layer expert) ∙ ok.slabs_length;
          table_length = length-set pool.slot_of k v ∙ ok.table_length;
          back = Back-insert pool.key2slot pool.slot2key k v room free ok.back;
          forth = Forth-insert pool.key2slot pool.slot2key k v room new ok.forth;
          loaded =
              Loaded-fill fetch role n_keys c.n_expert pool.slot2key pool.slabs v k
                (fetch role layer expert) room slab_room slab ok.loaded;
          indexed =
              λ j s h. indexed-insert pool.key2slot pool.slot_of k v j s low key_room ok.indexed h;
          not_newer =
              touch_bound pool.clk v (next c.clock) c.clock clk_room ok.not_newer
                (omega (arith, next_lem c.clock early));
        }

  fill-Served :
      (c : Counters) (pool : Pool Slab) (layer expert v k : ℕ) (occ : List ℤ)
      → k ≡ layer * c.n_expert + expert
      → v < pool.n_slots
      → expert < c.n_expert
      → k < n_keys
      → c.clock < u64_max
      → get_or pool.slot2key v none ≡ none
      → lookup k pool.key2slot ≡ none
      → Consistent fetch role n_keys c pool
      → Served pool.n_slots c.n_expert c.clock layer expert
          (record c { clock = next c.clock })
          (record pool {
            slabs = set pool.slabs v (fetch role layer expert);
            slot2key = set pool.slot2key v (some k);
            clk = set pool.clk v (next c.clock);
            key2slot = insert k v pool.key2slot;
            slot_of = set pool.slot_of k v;
            occ = occ;
          })
          v
  fill-Served c pool layer expert v k occ keyed inside of_layer low early free new ok =
      let slab_room : v < length pool.slabs = omega (arith, ok.slabs_length) in
      let key_room : k < length pool.slot_of = omega (arith, ok.table_length) in
      record {
        in_pool = inside;
        holds = ground (arith, get_elem?-set pool.slabs v v (fetch role layer expert) slab_room);
        found = rw (← keyed) (lookup-insert_self k v pool.key2slot);
        in_table = rw (← keyed) (ground (arith, get_or-set pool.slot_of k k v 0 key_room));
        ticked = next_lem c.clock early;
        same_experts = refl;
        same_slots = refl;
        consistent =
            fill-Consistent c pool layer expert v k occ keyed inside of_layer low early free new ok;
      }

  Served-cong :
      (n n' ne ne' now now' layer expert slot : ℕ) (c : Counters) (pool : Pool Slab)
      → n ≡ n'
      → ne ≡ ne'
      → now ≡ now'
      → Served n ne now layer expert c pool slot
      → Served n' ne' now' layer expert c pool slot
  Served-cong n n' ne ne' now now' layer expert slot c pool e₁ e₂ e₃ h =
      subst (λ (x : ℕ). Served x ne' now' layer expert c pool slot) e₁
        (subst (λ (x : ℕ). Served n x now' layer expert c pool slot) e₂
          (subst (λ (x : ℕ). Served n ne x layer expert c pool slot) e₃ h))

  -- `install` of a key that the pool does not hold.
  install-IsServed :
      (c : Counters) (pool : Pool Slab) (layer expert : ℕ)
      → 0 < pool.n_slots
      → expert < c.n_expert
      → layer * c.n_expert + expert < n_keys
      → c.clock < u64_max
      → lookup (layer * c.n_expert + expert) pool.key2slot ≡ none
      → Consistent fetch role n_keys c pool
      → IsServed c pool layer expert
          (install fetch c pool (layer * c.n_expert + expert) layer expert role)
  unfolding install
  install-IsServed c pool layer expert some_slot of_layer low early new ok =
      let (v, e, inside) =
        pick_victim_total c pool layer some_slot ok.keys_length ok.clk_length
          (omega (arith, ok.not_newer 0)) in
      let freed = drop_slot-Freed fetch role n_keys c pool v inside ok in
      let c₁ = (drop_slot c pool v).0 in
      let pool₁ = (drop_slot c pool v).1 in
      let occ = shift pool₁.occ layer (pos 1) in
      let k = layer * c.n_expert + expert in
      let keyed : k ≡ layer * c₁.n_expert + expert =
        sym (ap (λ (ne : ℕ). layer * ne + expert) freed.same_experts) in
      let served =
        fill-Served c₁ pool₁ layer expert v k occ keyed (omega (arith, freed.same_slots))
          (omega (arith, freed.same_experts)) low (omega (arith, freed.same_clock)) freed.is_free
          (freed.still_out k new) freed.consistent in
      (
        _,
        _,
        v,
        rw (e, install) refl,
        Served-cong pool₁.n_slots pool.n_slots c₁.n_expert c.n_expert c₁.clock c.clock layer expert
            v _ _ freed.same_slots freed.same_experts freed.same_clock served,
      )

  hit-Served :
      (c c' : Counters) (pool : Pool Slab) (layer expert slot : ℕ) (count : Dict ℕ ℕ)
      → expert < c.n_expert
      → c.clock < u64_max
      → c'.clock ≡ next c.clock
      → c'.n_expert ≡ c.n_expert
      → lookup (layer * c.n_expert + expert) pool.key2slot ≡ some slot
      → Consistent fetch role n_keys c pool
      → Served pool.n_slots c.n_expert c.clock layer expert c'
          (record pool { count = count; clk = set pool.clk slot c'.clock })
          slot
  hit-Served c c' pool layer expert slot count of_layer early ticks same e ok =
      let k = layer * c.n_expert + expert in
      let here = ok.back k slot e in
      let inside = held_inside pool.slot2key slot k here in
      let clk_room : slot < length pool.clk = omega (arith, ok.clk_length, ok.keys_length) in
      let (low, place) = ok.indexed k slot e in
      record {
        in_pool = omega (arith, ok.keys_length);
        holds =
            ok.loaded k slot here
            ∙ ap some (
                ap₂ (fetch role) (key-div layer expert c.n_expert of_layer)
                  (key-mod layer expert c.n_expert of_layer));
        found = e;
        in_table = place;
        ticked = ticks ∙ next_lem c.clock early;
        same_experts = same;
        same_slots = refl;
        consistent = record {
          keys_length = ok.keys_length;
          clk_length = length-set pool.clk slot c'.clock ∙ ok.clk_length;
          slabs_length = ok.slabs_length;
          table_length = ok.table_length;
          back = ok.back;
          forth = ok.forth;
          loaded = rw same ok.loaded;
          indexed = ok.indexed;
          not_newer =
              touch_bound pool.clk slot c'.clock c.clock clk_room ok.not_newer
                (omega (arith, next_lem c.clock early));
        };
      }

  -- In a pool whose invariant holds, `slot_for` always gives a slot: one of the pool, with the slab of
  -- the expert asked for, named by the key in both tables, on a hit as on a miss with an eviction,
  -- with quotas or without; the clock ticks once and the invariant holds again. The conditions: the
  -- pool has a slot, the key is one of its keys, and the clock has not reached the largest uint64_t.
  pub slot_for-IsServed :
      (c : Counters) (pool : Pool Slab) (layer expert : ℕ)
      → 0 < pool.n_slots
      → expert < c.n_expert
      → layer * c.n_expert + expert < n_keys
      → c.clock < u64_max
      → Consistent fetch role n_keys c pool
      → IsServed c pool layer expert (slot_for fetch c pool layer expert role)
  unfolding slot_for
  slot_for-IsServed c pool layer expert some_slot of_layer low early ok =
      go (lookup k pool.key2slot) refl
    where
      k : ℕ
      k = layer * c.n_expert + expert

      go :
          (held : Option ℕ)
          → lookup k pool.key2slot ≡ held
          → IsServed c pool layer expert (slot_for fetch c pool layer expert role)
      go none e =
          let c₁ = record c { misses = next c.misses; l_misses = bump c.l_misses layer } in
          let counted = record pool { count = count_up k pool.count } in
          rw (slot_for, e)
            (install-IsServed c₁ counted layer expert some_slot of_layer low early e (
              Consistent-miss fetch role n_keys c pool (next c.misses) (bump c.l_misses layer)
                (count_up k pool.count) ok))
      go (some slot) e =
          let c₁ = record c {
            hits = next c.hits;
            l_hits = bump c.l_hits layer;
            clock = next c.clock;
          } in
          (
            c₁,
            _,
            slot,
            rw (slot_for, e) refl,
            hit-Served c c₁ pool layer expert slot (count_up k pool.count) of_layer early refl refl
                e ok,
          )
