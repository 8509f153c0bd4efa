-- ===== src/Sampler/Tests.antt =====
-- The sampler with numbers for floats.
use questwend.Prelude.{
  ℕ, ◌+◌, ◌-◌, ◌*◌, ◌/◌, ◌<◌, ◌≡◌, refl, List, [], ◌∷◌, ◌++◌, true, false, some, ltb, leb, ◌==◌,
  get_or, arith,
}
use questwend.Prelude.Dict.{lookup}
use questwend.Prelude.Int.{ℤ, pos}
use questwend.Sampler
use questwend.Sampler.{Floats, SamplerConfig, State, accept_all, prime, sample, adjusted, penalized}
use questwend.Sampler.Choice.{sample-total}
use questwend.Sampler.Greedy.{sample_greedy_best}
use questwend.Sampler.Window.{IsWindow, prime-IsWindow}

abbrev numbers : Floats
numbers = record {
  F = ℕ;
  zero_f = 0;
  one_f = 1;
  of_int = λ n. n;
  less = ltb;
  at_most = leb;
  same = ◌==◌;
  add = ◌+◌;
  sub = ◌-◌;
  mul = ◌*◌;
  div = ◌/◌;
  exp = λ n. n + 1;
}

abbrev config : ℕ → SamplerConfig numbers
config temperature = record {
  temperature = temperature;
  top_p = 1;
  top_k = pos 2;
  repeat_penalty = 2;
  presence_penalty = 0;
  frequency_penalty = 0;
  repeat_last_n = pos 3;
}

abbrev fresh : ℕ → State numbers
fresh temperature = record { cfg = config temperature; recent = []; counts = [] }

abbrev prompt : List ℤ
prompt = pos 1 ∷ pos 2 ∷ pos 1 ∷ pos 3 ∷ pos 1 ∷ []

fresh-IsWindow : IsWindow numbers 3 [] (fresh 0)
unfolding penalized lookup
fresh-IsWindow = record { bound = refl; on = refl; newest = refl; counted = λ id. refl }

prime-IsWindow_example :
    IsWindow numbers 3
      (prompt ++ pos 3 ∷ [])
      (accept_all numbers (prime numbers (fresh 0) prompt) (pos 3 ∷ []))
prime-IsWindow_example = prime-IsWindow numbers 3 [] (fresh 0) prompt (pos 3 ∷ []) fresh-IsWindow

abbrev logits : List ℕ
logits = 4 ∷ 9 ∷ 8 ∷ []

sample-total_example :
    (id : ℕ) × (sample numbers (λ sum. sum - 1) (fresh 1) logits ≡ some id) × (id < 3)
sample-total_example = sample-total numbers (λ sum. sum - 1) (fresh 1) logits (omega arith)

drawn : sample numbers (λ sum. sum - 1) (fresh 1) logits ≡ some 1
unfolding sample adjusted penalized Sampler.penalize Sampler.sort_falling Sampler.insert_falling
    Sampler.with_ids Sampler.kept_count Sampler.weights Sampler.weigh Sampler.top_p_cut
    Sampler.total Sampler.pick
drawn = refl

less_asym : (a b : ℕ) → ltb a b ≡ true → ltb b a ≡ false
less_asym a b h = ground arith

less_chain : (a b c : ℕ) → ltb b a ≡ false → ltb c b ≡ false → ltb c a ≡ false
less_chain a b c h k = ground arith

sample_greedy_best_example :
    (id : ℕ) × (sample numbers (λ sum. sum) (fresh 0) logits ≡ some id)
    × ((j : ℕ)
        → j < 3
        → ltb
            (get_or (adjusted numbers (fresh 0) logits) id 0)
            (get_or (adjusted numbers (fresh 0) logits) j 0)
          ≡ false)
sample_greedy_best_example =
    sample_greedy_best numbers less_asym less_chain (λ sum. sum) (fresh 0) logits (omega arith) refl
