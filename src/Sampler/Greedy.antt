-- ===== src/Sampler/Greedy.antt =====
-- The greedy choice.
use questwend.Prelude.{
  ℕ, ◌+◌, ◌≤◌, ◌<◌, ◌≡◌, refl, ap, ◌∙◌, List, [], ◌∷◌, true, false, some, ltb, length, length-drop,
  drop, get_or, arith, Bool-cases, inl, inr,
}
use mathlib.Core.Path.{subst}
use questwend.Prelude.Indexing.{get_or-drop, drop-drop}
use questwend.Sampler.{Floats, State, adjusted, greedy, sample}
use questwend.Sampler.Choice.{length-adjusted}

-- One more case of a bounded statement.
below_suc : (P : ℕ → Type 0) (i : ℕ) → ((j : ℕ) → j < i → P j) → P i → (j : ℕ) → j < i + 1 → P j
below_suc P i below here j low = elim (Bool-cases (ltb j i)) [
  | inl less ↦ below j (ground arith)
  | inr last ↦ let e : i ≡ j = ground arith in subst P e here
]

module _ (fl : Floats) where
  open fl use {F, zero_f, less, at_most}

  module _ (asym : (a b : F) → less a b ≡ true → less b a ≡ false)
      (chain : (a b c : F) → less b a ≡ false → less c b ≡ false → less c a ≡ false) where
    irrefl : (a : F) → less a a ≡ false
    irrefl a = elim (Bool-cases (less a a)) [
      | inl yes_less ↦ asym a a yes_less
      | inr not_less ↦ not_less
    ]

    greedy_best :
        (lg xs : List F) (i best : ℕ)
        → xs ≡ drop i lg
        → i ≤ length lg
        → ((j : ℕ) → j < i → less (get_or lg best zero_f) (get_or lg j zero_f) ≡ false)
        → (j : ℕ) → j < length lg
        → less (get_or lg (greedy fl lg xs i best) zero_f) (get_or lg j zero_f) ≡ false
    unfolding greedy
    greedy_best lg [] i best e le seen =
        λ j low. seen j (omega (arith, ap length e, length-drop {0} i lg))
    greedy_best lg (x ∷ xs) i best e le seen =
        let at : x ≡ get_or lg i zero_f =
          ap (λ ys. get_or ys 0 zero_f) e ∙ get_or-drop i lg 0 i zero_f (omega arith) in
        let room : i < length lg = omega (arith, ap length e, length-drop {0} i lg) in
        let rest : xs ≡ drop (i + 1) lg = ap (drop 1) e ∙ drop-drop 1 i (i + 1) lg (omega arith) in
        let old = get_or lg best zero_f in
        elim (Bool-cases (less old x)) [
          | inl better ↦ rw better (
              greedy_best lg xs (i + 1) i rest (omega arith) (
                below_suc (λ j. less (get_or lg i zero_f) (get_or lg j zero_f) ≡ false) i
                  (λ j low.
                    chain (get_or lg j zero_f) old (get_or lg i zero_f) (seen j low)
                      (rw (← at) (asym old x better)))
                  (irrefl (get_or lg i zero_f))))
          | inr worse ↦ rw worse (
              greedy_best lg xs (i + 1) best rest (omega arith)
                (below_suc (λ j. less old (get_or lg j zero_f) ≡ false) i seen (rw (← at) worse)))
        ]

    -- With a temperature that is not positive `sample` returns a token with no greater logit beside
    -- it, after the penalties, where the comparison of the logits is a total order (no NaN).
    pub sample_greedy_best :
        (draw : F → F) (s : State fl) (logits : List F)
        → 0 < length logits
        → at_most s.cfg.temperature zero_f ≡ true
        → (id : ℕ) × (sample fl draw s logits ≡ some id)
          × ((j : ℕ)
              → j < length logits
              → less
                  (get_or (adjusted fl s logits) id zero_f)
                  (get_or (adjusted fl s logits) j zero_f)
                ≡ false)
    unfolding sample
    sample_greedy_best draw s logits some_logit cold =
        let lg = adjusted fl s logits in
        let size = length-adjusted fl s logits in
        (
          greedy fl lg (drop 1 lg) 1 0,
          rw cold refl,
          λ j low.
              greedy_best lg (drop 1 lg) 1 0 refl (omega (arith, size))
                (below_suc (λ j. less (get_or lg 0 zero_f) (get_or lg j zero_f) ≡ false) 0
                  (λ j below. absurd (omega arith)) (irrefl (get_or lg 0 zero_f)))
                j (omega (arith, size)),
        )
