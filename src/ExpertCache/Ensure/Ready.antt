-- ===== src/ExpertCache/Ensure/Ready.antt =====
-- One pool in the middle of a call of `ensure`: its invariant holds, and what the call asked for is
-- still where it was put.
use questwend.Prelude.{
  ℕ, ◌+◌, ◌*◌, ◌≤◌, ◌<◌, ◌≡◌, ap, sym, ◌∙◌, List, ◌∷◌, false, Option, some, length, All, arith,
}
use mathlib.Core.Path.{subst}
use questwend.ExpertCache.Pool.{Pool, Counters, slot_for, u64_max}
use questwend.ExpertCache.Pool.Residency.{Consistent}
use questwend.ExpertCache.Pool.SlotFor.{slot_for-IsServed}
use questwend.ExpertCache.Pool.Pins.{Pin, IsKept, newer, slot_for-IsKept}

module _ {Slab : Type 0} (fetch : ℕ → ℕ → ℕ → Slab) (n_keys start ne n_slots : ℕ) where
  pub record Ready (role : ℕ) (c : Counters) (pool : Pool Slab) (pins : List (ℕ × ℕ)) : Type 0 where
    pub consistent : Consistent fetch role n_keys c pool
    pub pinned : All (Pin fetch role n_keys start pool) pins
    pub few : newer start pool.clk ≤ length pins
    pub size : n_slots ≤ pool.n_slots

  -- The counters that the pools share.
  pub record InCall (c : Counters) (now : ℕ) : Type 0 where
    pub time : c.clock ≡ now
    pub began : start ≤ now
    pub off : c.quota_on ≡ false
    pub experts : c.n_expert ≡ ne

  abbrev pub IsStep : ℕ → List (ℕ × ℕ) → ℕ → ℕ → ℕ → Option (Counters × Pool Slab × ℕ) → Type 0
  IsStep role pins now layer expert result =
      (c' : Counters) × (pool' : Pool Slab) × (slot : ℕ) × (result ≡ some (c', pool', slot))
      × InCall c' (now + 1)
      × Ready role c' pool' ((layer * ne + expert, slot) ∷ pins)

  pub slot_for-IsStep :
      (role : ℕ) (c : Counters) (pool : Pool Slab) (pins : List (ℕ × ℕ)) (now layer expert : ℕ)
      → InCall c now
      → Ready role c pool pins
      → length pins < n_slots
      → expert < ne
      → layer * ne + expert < n_keys
      → now < u64_max
      → IsStep role pins now layer expert (slot_for fetch c pool layer expert role)
  slot_for-IsStep role c pool pins now layer expert call ready room of_layer low early =
      let key_low : layer * c.n_expert + expert < n_keys = rw call.experts low in
      let early' : c.clock < u64_max = omega (arith, call.time) in
      let (c', pool', slot, e, served) =
        slot_for-IsServed fetch role n_keys c pool layer expert (omega (arith, ready.size))
          (omega (arith, call.experts)) key_low early' ready.consistent in
      let kept =
        slot_for-IsKept fetch role n_keys start pins c pool layer expert call.off early'
          (omega (arith, call.time, call.began)) (omega (arith, ready.few, ready.size))
          ready.consistent ready.pinned in
      let (pins', few', on') =
        subst (IsKept fetch role n_keys start c.quota_on pool pins (layer * c.n_expert + expert)) e
          kept in
      (
        c',
        pool',
        slot,
        e,
        record {
          time = served.ticked ∙ ap (λ (t : ℕ). t + 1) call.time;
          began = omega (arith, call.began);
          off = on' ∙ call.off;
          experts = served.same_experts ∙ call.experts;
        },
        record {
          consistent = served.consistent;
          pinned =
              subst
                (λ (m : ℕ).
                  All (Pin fetch role n_keys start pool') ((layer * m + expert, slot) ∷ pins))
                call.experts pins';
          few = omega (arith, few', ready.few);
          size = omega (arith, served.same_slots, ready.size);
        },
      )

  -- A call on another pool leaves this one as it is.
  pub Ready-later :
      (role : ℕ) (c c' : Counters) (pool : Pool Slab) (pins : List (ℕ × ℕ)) (now now' : ℕ)
      → InCall c now
      → InCall c' now'
      → now ≤ now'
      → Ready role c pool pins
      → Ready role c' pool pins
  Ready-later role c c' pool pins now now' call call' later ready =
      let ok = ready.consistent in
      record {
        consistent = record {
          keys_length = ok.keys_length;
          clk_length = ok.clk_length;
          slabs_length = ok.slabs_length;
          table_length = ok.table_length;
          back = ok.back;
          forth = ok.forth;
          loaded = rw (call'.experts ∙ sym call.experts) ok.loaded;
          indexed = ok.indexed;
          not_newer = λ s. omega (arith, ok.not_newer s, call.time, call'.time);
        };
        pinned = ready.pinned;
        few = ready.few;
        size = ready.size;
      }
