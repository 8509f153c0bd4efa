-- ===== src/Sampler/Choice.antt =====
-- Which token `sample` returns.
use questwend.Prelude.{
  ℕ, zero, suc, ◌+◌, ◌≤◌, ◌<◌, ◌≡◌, refl, ap, ◌∙◌, List, [], ◌∷◌, some, ltb, length, length-set,
  length-drop, take, drop, get_or, All, All-take, arith, Bool-cases, inl, inr,
}
use questwend.Prelude.Dict.{Dict}
use questwend.Prelude.Int.{ℤ, pos, negsuc}
use questwend.Sampler.{
  Floats, SamplerConfig, State, penalize, adjusted, penalized, greedy, with_ids, insert_falling,
  sort_falling, kept_count, weigh, total, nucleus, top_p_cut, weights, pick, sample,
}

module _ (fl : Floats) where
  open fl use {F, zero_f, less, at_most}

  length-penalize :
      (cfg : SamplerConfig fl) (counts : Dict ℤ ℕ) (logits : List F)
      → length (penalize fl cfg counts logits) ≡ length logits
  unfolding penalize
  length-penalize cfg [] logits = refl
  length-penalize cfg ((negsuc id, n) ∷ counts) logits = length-penalize cfg counts logits
  length-penalize cfg ((pos id, n) ∷ counts) logits = elim (Bool-cases (ltb id (length logits))) [
    | inl inside ↦ rw inside (length-penalize cfg counts _ ∙ length-set logits id _)
    | inr outside ↦ rw outside (length-penalize cfg counts logits)
  ]

  pub length-adjusted :
      (s : State fl) (logits : List F) → length (adjusted fl s logits) ≡ length logits
  unfolding adjusted
  length-adjusted s logits = elim (Bool-cases (penalized fl s.cfg)) [
    | inl on ↦ rw on (length-penalize s.cfg s.counts logits)
    | inr off ↦ rw off refl
  ]

  -- The ids of a working list are below `n`.
  abbrev Ids : ℕ → List (F × ℕ) → Type 0
  Ids n work = All (λ (p : F × ℕ). p.1 < n) work

  with_ids-Ids : (ls : List F) (i n : ℕ) → i + length ls ≤ n → Ids n (with_ids fl ls i)
  unfolding with_ids
  with_ids-Ids [] i n h = tt
  with_ids-Ids (l ∷ ls) i n h = (omega arith, with_ids-Ids ls (i + 1) n (omega arith))

  insert_falling-Ids :
      (n : ℕ) (p : F × ℕ) (qs : List (F × ℕ)) → p.1 < n → Ids n qs → Ids n (insert_falling fl p qs)
  unfolding insert_falling
  insert_falling-Ids n p [] h hs = (h, tt)
  insert_falling-Ids n p (q ∷ qs) h (hq, hs) = elim (Bool-cases (less q.0 p.0)) [
    | inl here ↦ rw here (h, (hq, hs))
    | inr later ↦ rw later (hq, insert_falling-Ids n p qs h hs)
  ]

  sort_falling-Ids : (n : ℕ) (ps : List (F × ℕ)) → Ids n ps → Ids n (sort_falling fl ps)
  unfolding sort_falling
  sort_falling-Ids n [] h = tt
  sort_falling-Ids n (p ∷ ps) (h, hs) = insert_falling-Ids n p _ h (sort_falling-Ids n ps hs)

  length-insert_falling :
      (p : F × ℕ) (qs : List (F × ℕ)) → length (insert_falling fl p qs) ≡ suc (length qs)
  unfolding insert_falling
  length-insert_falling p [] = refl
  length-insert_falling p (q ∷ qs) = ground (arith, length-insert_falling p qs)

  weigh-Ids : (n : ℕ) (a b : F) (ps : List (F × ℕ)) → Ids n ps → Ids n (weigh fl a b ps)
  unfolding weigh
  weigh-Ids n a b [] h = tt
  weigh-Ids n a b (p ∷ ps) (h, hs) = (h, weigh-Ids n a b ps hs)

  -- The loop keeps an entry at least.
  nucleus_pos :
      (top_p sum : F) (ps : List (F × ℕ)) (i : ℕ) (cum : F) (size : ℕ)
      → 0 < size
      → 0 < nucleus fl top_p sum ps i cum size
  unfolding nucleus
  nucleus_pos top_p sum [] i cum size h = h
  nucleus_pos top_p sum (p ∷ ps) i cum size h =
      let cum' = fl.add cum (fl.div p.0 sum) in
      elim (Bool-cases (at_most top_p cum')) [
        | inl enough ↦ rw enough (omega arith)
        | inr more ↦ rw more (nucleus_pos top_p sum ps (i + 1) cum' size h)
      ]

  -- Some entry of a working list that is not empty is returned.
  pick_total :
      (n : ℕ) (r : F) (p : F × ℕ) (ps : List (F × ℕ))
      → Ids n (p ∷ ps)
      → (id : ℕ) × (pick fl r (p ∷ ps) ≡ some id) × (id < n)
  unfolding pick
  pick_total n r p [] (h, hs) = (p.1, refl, h)
  pick_total n r p (q ∷ ps) (h, hs) = elim (Bool-cases (at_most (fl.sub r p.0) zero_f)) [
    | inl here ↦ (p.1, rw here refl, h)
    | inr later ↦ let (id, e, low) = pick_total n (fl.sub r p.0) q ps hs in (id, rw later e, low)
  ]

  greedy_bound :
      (lg xs : List F) (i best n : ℕ) → best < n → i + length xs ≤ n → greedy fl lg xs i best < n
  unfolding greedy
  greedy_bound lg [] i best n h fit = h
  greedy_bound lg (x ∷ xs) i best n h fit = elim (Bool-cases (less (get_or lg best zero_f) x)) [
    | inl better ↦ rw better (greedy_bound lg xs (i + 1) i n (omega arith) (omega arith))
    | inr worse ↦ rw worse (greedy_bound lg xs (i + 1) best n h (omega arith))
  ]

  length-with_ids : (ls : List F) (i : ℕ) → length (with_ids fl ls i) ≡ length ls
  unfolding with_ids
  length-with_ids [] i = refl
  length-with_ids (l ∷ ls) i = ap suc (length-with_ids ls (i + 1))

  length-sort_falling : (ps : List (F × ℕ)) → length (sort_falling fl ps) ≡ length ps
  unfolding sort_falling
  length-sort_falling [] = refl
  length-sort_falling (p ∷ ps) =
      length-insert_falling p (sort_falling fl ps) ∙ ap suc (length-sort_falling ps)

  kept_count_pos : (k : ℤ) (n : ℕ) → 0 < n → 0 < kept_count fl k n
  unfolding kept_count
  kept_count_pos (pos zero) n h = h
  kept_count_pos (pos (suc k)) n h = omega arith
  kept_count_pos (negsuc k) n h = h

  length-take_pos : (k : ℕ) (ps : List (F × ℕ)) → 0 < k → 0 < length ps → 0 < length (take k ps)
  length-take_pos zero ps h l = h
  length-take_pos (suc k) [] h l = l
  length-take_pos (suc k) (p ∷ ps) h l = omega arith

  top_p_cut-Ids :
      (n : ℕ) (cfg : SamplerConfig fl) (work : List (F × ℕ))
      → 0 < length work
      → Ids n work
      → Ids n (top_p_cut fl cfg work) × (0 < length (top_p_cut fl cfg work))
  unfolding top_p_cut
  top_p_cut-Ids n cfg work l h = elim (Bool-cases (less cfg.top_p fl.one_f)) [
    | inl cut ↦
        let k = nucleus fl cfg.top_p (total fl zero_f work) work 0 zero_f (length work) in
        rw cut (
          All-take (λ (p : F × ℕ). p.1 < n) k work h,
          length-take_pos k work (nucleus_pos cfg.top_p _ work 0 zero_f (length work) l) l,
        )
    | inr whole ↦ rw whole (h, l)
  ]

  weights-Ids :
      (n : ℕ) (cfg : SamplerConfig fl) (kept : List (F × ℕ))
      → 0 < length kept
      → Ids n kept
      → Ids n (weights fl cfg kept) × (0 < length (weights fl cfg kept))
  unfolding weights weigh
  weights-Ids n cfg [] l h = absurd (omega arith)
  weights-Ids n cfg (p ∷ ps) l h =
      top_p_cut-Ids n cfg (weigh fl p.0 cfg.temperature (p ∷ ps)) (omega arith)
        (weigh-Ids n p.0 cfg.temperature (p ∷ ps) h)

  pick-some :
      (n : ℕ) (r : F) (work : List (F × ℕ))
      → Ids n work × (0 < length work)
      → (id : ℕ) × (pick fl r work ≡ some id) × (id < n)
  pick-some n r [] (h, l) = absurd (omega arith)
  pick-some n r (p ∷ ps) (h, l) = pick_total n r p ps h

  -- For logits that are not empty `sample` always returns a token, and its id is that of a logit:
  -- greedy or drawn, whatever the penalties, the cuts, the numbers and the draw.
  pub sample-total :
      (draw : F → F) (s : State fl) (logits : List F)
      → 0 < length logits
      → (id : ℕ) × (sample fl draw s logits ≡ some id) × (id < length logits)
  unfolding sample
  sample-total draw s logits some_logit =
      let n = length logits in
      let lg = adjusted fl s logits in
      let ids = sort_falling fl (with_ids fl lg 0) in
      let size = length-adjusted s logits in
      let k = kept_count fl s.cfg.top_k n in
      let ids_low =
        sort_falling-Ids n (with_ids fl lg 0) (with_ids-Ids lg 0 n (omega (arith, size))) in
      let ids_size : length ids ≡ n =
        length-sort_falling (with_ids fl lg 0) ∙ length-with_ids lg 0 ∙ size in
      let kept_pos =
        length-take_pos k ids (kept_count_pos s.cfg.top_k n some_logit) (omega (arith, ids_size)) in
      let work = weights fl s.cfg (take k ids) in
      elim (Bool-cases (at_most s.cfg.temperature zero_f)) [
        | inl cold ↦ (
          greedy fl lg (drop 1 lg) 1 0,
          rw cold refl,
          greedy_bound lg (drop 1 lg) 1 0 n some_logit (omega (arith, length-drop {0} 1 lg, size)),
        )
        | inr warm ↦
            let (id, e, low) = pick-some n (draw (total fl zero_f work)) work (
              weights-Ids n s.cfg (take k ids) kept_pos
                (All-take (λ (p : F × ℕ). p.1 < n) k ids ids_low)) in
            (id, rw warm e, low)
      ]
