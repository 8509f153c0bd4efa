-- ===== src/ExpertCache/Pool/Residency.antt =====
-- What a pool promises: the two maps between keys and slots are inverse, a slot that holds a key holds
-- the slab of the key, and no slot is newer than the clock.
use questwend.Prelude.{
  ℕ, zero, suc, ◌/◌, ◌%◌, ◌≤◌, ◌<◌, ◌≡◌, refl, ◌∙◌, List, [], ◌∷◌, false, Option, none, some, ◌==◌,
  if◌then◌else◌, length, length-set, get_elem?, get_elem?-set, get_or, set, arith,
}
use questwend.Prelude.Dict.{Dict, nat_key, lookup, insert, erase, lookup-erase, lookup-insert}
use questwend.ExpertCache.Pool.{Pool, Counters, drop_slot}

pub get_or-set {ℓ} :
    {A : Type ℓ} (xs : List A) (i j : ℕ) (v d : A)
    → i < length xs
    → get_or (set xs i v) j d ≡ (if i == j then v else get_or xs j d)
get_or-set [] i j v d h = absurd (omega arith)
get_or-set (x ∷ xs) zero zero v d h = refl
get_or-set (x ∷ xs) zero (suc j) v d h = ground arith
get_or-set (x ∷ xs) (suc i) zero v d h = ground arith
get_or-set (x ∷ xs) (suc i) (suc j) v d h = get_or-set xs i j v d (omega arith) ∙ ground arith

-- `keys` has the key at the slot that `at` names, and the other way round.
abbrev pub Back : Dict ℕ ℕ → List (Option ℕ) → Type 0
Back at keys = (k s : ℕ) → lookup k at ≡ some s → get_or keys s none ≡ some k

abbrev pub Forth : Dict ℕ ℕ → List (Option ℕ) → Type 0
Forth at keys = (k s : ℕ) → get_or keys s none ≡ some k → lookup k at ≡ some s

Back-erase :
    (at : Dict ℕ ℕ) (keys : List (Option ℕ)) (k v : ℕ)
    → v < length keys
    → get_or keys v none ≡ some k
    → Back at keys
    → Back (erase k at) (set keys v none)
Back-erase at keys k v inside here back j s h =
    ground (arith, get_or-set keys v s none none inside, lookup-erase j k at, back j s)

Forth-erase :
    (at : Dict ℕ ℕ) (keys : List (Option ℕ)) (k v : ℕ)
    → v < length keys
    → lookup k at ≡ some v
    → Forth at keys
    → Forth (erase k at) (set keys v none)
Forth-erase at keys k v inside here forth j s h =
    ground (arith, get_or-set keys v s none none inside, lookup-erase j k at, forth j s)

pub Back-insert :
    (at : Dict ℕ ℕ) (keys : List (Option ℕ)) (k v : ℕ)
    → v < length keys
    → get_or keys v none ≡ none
    → Back at keys
    → Back (insert k v at) (set keys v (some k))
Back-insert at keys k v inside free back j s h =
    ground (arith, get_or-set keys v s (some k) none inside, lookup-insert j k v at, back j s)

pub Forth-insert :
    (at : Dict ℕ ℕ) (keys : List (Option ℕ)) (k v : ℕ)
    → v < length keys
    → lookup k at ≡ none
    → Forth at keys
    → Forth (insert k v at) (set keys v (some k))
Forth-insert at keys k v inside new forth j s h =
    ground (arith, get_or-set keys v s (some k) none inside, lookup-insert j k v at, forth j s)

module _ {Slab : Type 0} (fetch : ℕ → ℕ → ℕ → Slab) (role n_keys : ℕ) where
  -- What every slot with a key holds, `ne` experts to a layer.
  abbrev pub Loaded : ℕ → List (Option ℕ) → List Slab → Type 0
  Loaded ne keys slabs =
      (k s : ℕ)
      → get_or keys s none ≡ some k
      → get_elem? slabs s ≡ some (fetch role (k / ne) (k % ne))

  Loaded-drop :
      (ne : ℕ) (keys : List (Option ℕ)) (slabs : List Slab) (v : ℕ)
      → v < length keys
      → Loaded ne keys slabs
      → Loaded ne (set keys v none) slabs
  Loaded-drop ne keys slabs v inside loaded k s h =
      ground (arith, get_or-set keys v s none none inside, loaded k s)

  pub Loaded-fill :
      (ne : ℕ) (keys : List (Option ℕ)) (slabs : List Slab) (v k : ℕ) (slab : Slab)
      → v < length keys
      → v < length slabs
      → slab ≡ fetch role (k / ne) (k % ne)
      → Loaded ne keys slabs
      → Loaded ne (set keys v (some k)) (set slabs v slab)
  Loaded-fill ne keys slabs v k slab inside inside' e loaded j s h = ground (
    arith,
    get_or-set keys v s (some k) none inside,
    get_elem?-set slabs v s slab inside',
    loaded j s,
    e,
  )

  -- The invariant of a pool of this role.
  pub record Consistent (c : Counters) (pool : Pool Slab) : Type 0 where
    pub keys_length : length pool.slot2key ≡ pool.n_slots
    pub clk_length : length pool.clk ≡ pool.n_slots
    pub slabs_length : length pool.slabs ≡ pool.n_slots
    pub table_length : length pool.slot_of ≡ n_keys
    pub back : Back pool.key2slot pool.slot2key
    pub forth : Forth pool.key2slot pool.slot2key
    pub loaded : Loaded c.n_expert pool.slot2key pool.slabs
    pub indexed :
        (k s : ℕ) → lookup k pool.key2slot ≡ some s → (k < n_keys) × (get_or pool.slot_of k 0 ≡ s)
    pub not_newer : (s : ℕ) → get_or pool.clk s 0 ≤ c.clock

  -- The pool after slot `v` was dropped.
  pub record Freed (c : Counters) (pool : Pool Slab) (v : ℕ) (after : Counters × Pool Slab)
      : Type 0 where
    pub consistent : Consistent after.0 after.1
    pub is_free : get_or after.1.slot2key v none ≡ none
    pub same_clock : after.0.clock ≡ c.clock
    pub same_experts : after.0.n_expert ≡ c.n_expert
    pub same_slots : after.1.n_slots ≡ pool.n_slots
    pub still_out : (k : ℕ) → lookup k pool.key2slot ≡ none → lookup k after.1.key2slot ≡ none

  indexed-erase :
      (at : Dict ℕ ℕ) (table : List ℕ) (j k s : ℕ)
      → j < length table
      → ((k s : ℕ) → lookup k at ≡ some s → (k < n_keys) × (get_or table k 0 ≡ s))
      → lookup k (erase j at) ≡ some s
      → (k < n_keys) × (get_or (set table j 0) k 0 ≡ s)
  indexed-erase at table j k s inside old h =
      let kept : lookup k at ≡ some s = ground (arith, lookup-erase k j at) in
      let other : (j == k) ≡ false = ground (arith, lookup-erase k j at) in
      let (low, e) = old k s kept in (low, ground (arith, get_or-set table j k 0 0 inside))

  pub drop_slot-Freed :
      (c : Counters) (pool : Pool Slab) (v : ℕ)
      → v < pool.n_slots
      → Consistent c pool
      → Freed c pool v (drop_slot c pool v)
  unfolding drop_slot
  drop_slot-Freed c pool v inside ok = go (get_or pool.slot2key v none) refl
    where
      go :
          (held : Option ℕ)
          → get_or pool.slot2key v none ≡ held
          → Freed c pool v (drop_slot c pool v)
      go none e =
          rw (e, drop_slot)
            (record {
              consistent = ok;
              is_free = e;
              same_clock = refl;
              same_experts = refl;
              same_slots = refl;
              still_out = λ k h. h;
            })
      go (some j) e =
          let room : v < length pool.slot2key = omega (arith, ok.keys_length) in
          let (low, _) = ok.indexed j v (ok.forth j v e) in
          let key_room : j < length pool.slot_of = omega (arith, ok.table_length) in
          rw (e, drop_slot)
            (record {
              consistent = record {
                keys_length = length-set pool.slot2key v none ∙ ok.keys_length;
                clk_length = ok.clk_length;
                slabs_length = ok.slabs_length;
                table_length = length-set pool.slot_of j 0 ∙ ok.table_length;
                back = Back-erase pool.key2slot pool.slot2key j v room e ok.back;
                forth = Forth-erase pool.key2slot pool.slot2key j v room (ok.forth j v e) ok.forth;
                loaded = Loaded-drop c.n_expert pool.slot2key pool.slabs v room ok.loaded;
                indexed =
                    λ k s h. indexed-erase pool.key2slot pool.slot_of j k s key_room ok.indexed h;
                not_newer = ok.not_newer;
              };
              is_free = ground (arith, get_or-set pool.slot2key v v none none room);
              same_clock = refl;
              same_experts = refl;
              same_slots = refl;
              still_out = λ k h. ground (arith, lookup-erase k j pool.key2slot);
            })

  -- The counters of a miss are outside the invariant.
  pub Consistent-miss :
      (c : Counters) (pool : Pool Slab) (misses : ℕ) (l_misses : List ℕ) (count : Dict ℕ ℕ)
      → Consistent c pool
      → Consistent
          (record c { misses = misses; l_misses = l_misses })
          (record pool { count = count })
  Consistent-miss c pool misses l_misses count ok = record {
    keys_length = ok.keys_length;
    clk_length = ok.clk_length;
    slabs_length = ok.slabs_length;
    table_length = ok.table_length;
    back = ok.back;
    forth = ok.forth;
    loaded = ok.loaded;
    indexed = ok.indexed;
    not_newer = ok.not_newer;
  }
