-- ===== src/Sampler.antt =====
-- core/sampler.cpp and core/sampler.h: the sampler. `float` and `double` are one type, a parameter
-- with its operations; so are the exponential and the draw from the random generator. `Window`
-- proves what the penalty window holds, `Choice` what `sample` returns.
pub mod Window
pub mod Choice
pub mod Greedy
mod Tests
use questwend.Prelude.{
  ℕ, zero, suc, ◌+◌, ◌-◌, List, [], ◌∷◌, ◌++◌, map, Bool, true, false, ◌&&◌, ◌||◌, not, Option,
  none, some, ltb, leb, ◌==◌, min, if◌then◌else◌, length, take, drop, get_or, set,
}
use questwend.Prelude.Dict.{Dict, lookup, insert, erase}
use questwend.Prelude.Int.{ℤ, pos, negsuc, int_key, ltb_ℤ, pos_part}

-- The arithmetic of `float` and `double` that the sampler calls.
pub record Floats : Type 1 where
  pub F : Type 0
  pub zero_f : F
  pub one_f : F
  pub of_int : ℕ → F
  pub less : F → F → Bool
  pub at_most : F → F → Bool
  pub same : F → F → Bool
  pub add : F → F → F
  pub sub : F → F → F
  pub mul : F → F → F
  pub div : F → F → F
  pub exp : F → F

module _ (fl : Floats) where
  open fl use {F, zero_f, one_f, of_int, less, at_most, same, add, sub, mul, div, exp}

  -- `struct SamplerConfig`, less the seed.
  pub record SamplerConfig : Type 0 where
    pub temperature : F
    pub top_p : F
    pub top_k : ℤ
    pub repeat_penalty : F
    pub presence_penalty : F
    pub frequency_penalty : F
    pub repeat_last_n : ℤ

  -- The members of `Sampler` that outlive a call.
  pub record State : Type 0 where
    pub cfg : SamplerConfig
    pub recent : List ℤ
    pub counts : Dict ℤ ℕ

  unfoldable pub penalized : SamplerConfig → Bool
  penalized cfg =
      ltb_ℤ (pos 0) cfg.repeat_last_n
      && (not (same cfg.repeat_penalty one_f)
          || (not (same cfg.presence_penalty zero_f) || not (same cfg.frequency_penalty zero_f)))

  -- `++counts_[id]`
  unfoldable pub count_up : ℤ → Dict ℤ ℕ → Dict ℤ ℕ
  count_up id counts = insert id (elim (lookup id counts) [ none ↦ 1 | some n ↦ n + 1 ]) counts

  -- `if (it != end && --it->second == 0) counts_.erase(it);`
  unfoldable pub count_down : ℤ → Dict ℤ ℕ → Dict ℤ ℕ
  count_down id counts = elim (lookup id counts) [
    | none ↦ counts
    | some n ↦ if n - 1 == 0 then erase id counts else insert id (n - 1) counts
  ]

  -- `while ((int) recent_.size() > repeat_last_n)`, where the bound is positive.
  unfoldable pub shrink : ℕ → List ℤ → Dict ℤ ℕ → List ℤ × Dict ℤ ℕ
  shrink bound [] counts = ([], counts)
  shrink bound (old ∷ recent) counts =
      let rest = shrink bound recent (count_down old counts) in
      if ltb bound (length (old ∷ recent)) then rest else (old ∷ recent, counts)

  unfoldable pub accept : State → ℤ → State
  accept s id =
      let (recent, counts) =
        shrink (pos_part s.cfg.repeat_last_n) (s.recent ++ id ∷ []) (count_up id s.counts) in
      if penalized s.cfg then record s { recent = recent; counts = counts } else s

  unfoldable pub accept_all : State → List ℤ → State
  accept_all s [] = s
  accept_all s (id ∷ ids) = accept_all (accept s id) ids

  unfoldable pub prime : State → List ℤ → State
  prime s prompt =
      let n = min (length prompt) (pos_part s.cfg.repeat_last_n) in
      if penalized s.cfg then accept_all s (drop (length prompt - n) prompt) else s

  -- The new logit of a token seen `count` times.
  unfoldable pub penalty : SamplerConfig → ℕ → F → F
  penalty cfg count l =
      let scaled =
        if same cfg.repeat_penalty one_f
        then l
        else if less zero_f l
        then div l cfg.repeat_penalty
        else mul l cfg.repeat_penalty in
      sub scaled (add cfg.presence_penalty (mul cfg.frequency_penalty (of_int count)))

  -- `for (const auto & kv : counts_)`; an id out of range is skipped.
  unfoldable pub penalize : SamplerConfig → Dict ℤ ℕ → List F → List F
  penalize cfg [] logits = logits
  penalize cfg ((negsuc id, count) ∷ counts) logits = penalize cfg counts logits
  penalize cfg ((pos id, count) ∷ counts) logits = penalize cfg counts (
      if ltb id (length logits)
      then set logits id (penalty cfg count (get_or logits id zero_f))
      else logits)

  unfoldable pub adjusted : State → List F → List F
  adjusted s logits = if penalized s.cfg then penalize s.cfg s.counts logits else logits

  -- `for (i = …; i < n; ++i) if (lg[i] > lg[best]) best = i;` over the logits from `i` on.
  unfoldable pub greedy : List F → List F → ℕ → ℕ → ℕ
  greedy lg [] i best = best
  greedy lg (x ∷ xs) i best =
      greedy lg xs (i + 1) (if less (get_or lg best zero_f) x then i else best)

  -- `work_`
  unfoldable pub with_ids : List F → ℕ → List (F × ℕ)
  with_ids [] i = []
  with_ids (l ∷ ls) i = (l, i) ∷ with_ids ls (i + 1)

  -- `std::sort` by falling logit.
  unfoldable pub insert_falling : F × ℕ → List (F × ℕ) → List (F × ℕ)
  insert_falling p [] = p ∷ []
  insert_falling p (q ∷ qs) =
      let later = q ∷ insert_falling p qs in if less q.0 p.0 then p ∷ q ∷ qs else later

  unfoldable pub sort_falling : List (F × ℕ) → List (F × ℕ)
  sort_falling [] = []
  sort_falling (p ∷ ps) = insert_falling p (sort_falling ps)

  -- `cfg_.top_k > 0 ? std::min(cfg_.top_k, n) : n`
  unfoldable pub kept_count : ℤ → ℕ → ℕ
  kept_count (pos zero) n = n
  kept_count (pos (suc k)) n = min (suc k) n
  kept_count (negsuc k) n = n

  unfoldable pub weigh : F → F → List (F × ℕ) → List (F × ℕ)
  weigh maxl temperature [] = []
  weigh maxl temperature (p ∷ ps) =
      (exp (div (sub p.0 maxl) temperature), p.1) ∷ weigh maxl temperature ps

  unfoldable pub total : F → List (F × ℕ) → F
  total acc [] = acc
  total acc (p ∷ ps) = total (add acc p.0) ps

  -- How many are kept: the loop over the weights from `i` on, with `size` if it does not break.
  unfoldable pub nucleus : F → F → List (F × ℕ) → ℕ → F → ℕ → ℕ
  nucleus top_p sum [] i cum size = size
  nucleus top_p sum (p ∷ ps) i cum size =
      let cum' = add cum (div p.0 sum) in
      let rest = nucleus top_p sum ps (i + 1) cum' size in
      if at_most top_p cum' then i + 1 else rest

  unfoldable pub top_p_cut : SamplerConfig → List (F × ℕ) → List (F × ℕ)
  top_p_cut cfg work =
      if less cfg.top_p one_f
      then take (nucleus cfg.top_p (total zero_f work) work 0 zero_f (length work)) work
      else work

  -- The last loop; `r` is what is left of the draw. `none` is `back()` of an empty vector.
  unfoldable pub pick : F → List (F × ℕ) → Option ℕ
  pick r [] = none
  pick r (p ∷ []) = some p.1
  pick r (p ∷ q ∷ ps) =
      let rest = pick (sub r p.0) (q ∷ ps) in if at_most (sub r p.0) zero_f then some p.1 else rest

  -- The weights, from the logits sorted and cut to `top_k`.
  unfoldable pub weights : SamplerConfig → List (F × ℕ) → List (F × ℕ)
  weights cfg [] = []
  weights cfg (p ∷ ps) = top_p_cut cfg (weigh p.0 cfg.temperature (p ∷ ps))

  -- `sample(logits)`; `draw sum` is the number that the generator gives between 0 and `sum`.
  unfoldable pub sample : (F → F) → State → List F → Option ℕ
  sample draw s logits =
      let lg = adjusted s logits in
      let n = length logits in
      let kept = take (kept_count s.cfg.top_k n) (sort_falling (with_ids lg 0)) in
      let work = weights s.cfg kept in
      if at_most s.cfg.temperature zero_f
      then some (greedy lg (drop 1 lg) 1 0)
      else pick (draw (total zero_f work)) work
