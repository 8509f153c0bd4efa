-- ===== src/ExpertCache/Pool/Fresh.antt =====
-- The pools that the constructor makes.
use questwend.Prelude.{
  ℕ, suc, zero, ◌*◌, ◌≡◌, refl, List, [], Option, none, length, length-replicate, replicate, get_or,
  arith,
}
use questwend.Prelude.Dict.{nat_key, lookup}
use questwend.Prelude.Int.{pos, negsuc}
use questwend.ExpertCache.Pool.{Pool, Counters}
use questwend.ExpertCache.Pool.Residency.{Consistent}

module _ {Slab : Type 0} where
  -- `blank` is what the backend's new tensor holds.
  unfoldable pub fresh_pool : ℕ → List Slab → ℕ → ℕ → Pool Slab
  fresh_pool role blank n_layer n_expert = record {
    role = role;
    n_slots = length blank;
    slabs = blank;
    key2slot = [];
    slot2key = replicate (length blank) none;
    clk = replicate (length blank) 0;
    count = [];
    slot_of = replicate (n_layer * n_expert) 0;
    quota = replicate n_layer (negsuc 0);
    occ = replicate n_layer (pos 0);
  }

get_or-replicate {ℓ} : {A : Type ℓ} (n i : ℕ) (x : A) → get_or (replicate n x) i x ≡ x
get_or-replicate zero i x = refl
get_or-replicate (suc n) zero x = refl
get_or-replicate (suc n) (suc i) x = get_or-replicate n i x

module _ {Slab : Type 0} (fetch : ℕ → ℕ → ℕ → Slab) where
  -- A new pool keeps the invariant.
  pub fresh_pool-Consistent :
      (c : Counters) (role : ℕ) (blank : List Slab) (n_layer n_expert : ℕ)
      → Consistent fetch role (n_layer * n_expert) c (fresh_pool role blank n_layer n_expert)
  unfolding fresh_pool lookup
  fresh_pool-Consistent c role blank n_layer n_expert = record {
    keys_length = length-replicate (length blank) none;
    clk_length = length-replicate (length blank) 0;
    slabs_length = refl;
    table_length = length-replicate (n_layer * n_expert) 0;
    back = λ k s h. ground arith;
    forth = λ k s h. ground (arith, get_or-replicate {0} {A = Option ℕ} (length blank) s none);
    loaded = λ k s h. ground (arith, get_or-replicate {0} {A = Option ℕ} (length blank) s none);
    indexed = λ k s h. ground arith;
    not_newer = λ s. omega (arith, get_or-replicate {0} {A = ℕ} (length blank) s 0);
  }
