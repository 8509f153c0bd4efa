-- ===== src/Args/Tier.antt =====
-- The memory budget that is left for the model, and whether the options are still accepted.
use questwend.Prelude.{
  ℕ, ◌+◌, ◌-◌, ◌*◌, ◌/◌, ◌%◌, ◌^◌, ◌≤◌, ◌<◌, ◌≡◌, ◌≢◌, refl, ◌⊎◌, ◌↔◌, inl, inr, [], ◌∷◌, true,
  false, ◌&&◌, not, ltb, leb, ◌==◌, length, min, arith, Bool-cases,
}
use questwend.Args.{
  Readers, CommonOptions, validate_common_options, reserve_vision_tower_vram, vram_budget_auto,
}

module _ (readers : Readers) where
  validate-lone :
      (o : CommonOptions readers) (budget : ℕ)
      → o.vram_list ≡ budget ∷ []
      → length o.gpu_ids ≤ 1
      → o.gpu_split_given ≡ false
      → (validate_common_options readers o ≡ true) ↔ (0 < budget)
  unfolding validate_common_options
  validate-lone o budget list few whole =
      let test : validate_common_options readers o
          ≡ not ((true && budget == 0) && (leb (length o.gpu_ids) 1 && not o.gpu_split_given)) =
        simp (list, validate_common_options) in
      ground (arith, test)

  reserve-lone :
      (o : CommonOptions readers) (budget tower_bytes : ℕ)
      → o.vram_list ≡ budget ∷ []
      → budget ≢ vram_budget_auto
      → tower_bytes + 1024 * 1024 < 2 ^ 64
      → reserve_vision_tower_vram readers o tower_bytes ≡ record o {
        vram_list = (budget - min budget ((tower_bytes + 1024 * 1024 - 1) / (1024 * 1024))) ∷ [];
      }
  unfolding reserve_vision_tower_vram
  reserve-lone o budget tower_bytes list explicit small =
      let measured : (budget == vram_budget_auto) ≡ false = ground arith in
      let unwrapped : (tower_bytes + 1024 * 1024 - 1) % 2 ^ 64 ≡ tower_bytes + 1024 * 1024 - 1 =
        omega arith in
      simp (list, reserve_vision_tower_vram, measured, unwrapped)

  -- For a lone GPU with an explicit budget that passes `validate_common_options`: the options pass it
  -- still after the vision tower's memory is reserved if and only if the tower, rounded up to whole MB,
  -- takes less than the budget. Otherwise the budget that is left is 0.
  pub reserve_vision_tower_vram-validate :
      (o : CommonOptions readers) (budget tower_bytes : ℕ)
      → o.vram_list ≡ budget ∷ []
      → budget ≢ vram_budget_auto
      → length o.gpu_ids ≤ 1
      → o.gpu_split_given ≡ false
      → validate_common_options readers o ≡ true
      → tower_bytes + 1024 * 1024 < 2 ^ 64
      → let after = reserve_vision_tower_vram readers o tower_bytes in
        ((validate_common_options readers after ≡ true)
          ↔ (tower_bytes ≤ (budget - 1) * (1024 * 1024)))
        × ((validate_common_options readers after ≡ true) ⊎ (after.vram_list ≡ 0 ∷ []))
  reserve_vision_tower_vram-validate o budget tower_bytes list explicit few whole valid small =
      let vmb = (tower_bytes + 1024 * 1024 - 1) / (1024 * 1024) in
      let left = budget - min budget vmb in
      let positive = (validate-lone o budget list few whole).0 valid in
      let (there, back) = validate-lone (record o { vram_list = left ∷ [] }) left refl few whole in
      rw (reserve-lone o budget tower_bytes list explicit small) (
        (λ h. omega (arith, there h), λ h. back (omega arith)),
        elim (Bool-cases (ltb 0 left)) [
          | inl some_left ↦ inl (back (ground arith))
          | inr none_left ↦ let e : left ≡ 0 = ground arith in inr (rw e refl)
        ],
      )
