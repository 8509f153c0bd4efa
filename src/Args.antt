-- ===== src/Args.antt =====
-- core/args.cpp and core/args.h: the options that both binaries share. The conversions of the standard
-- library and the three list parsers of core/runtime.cpp are parameters, `Readers`; so is the type of
-- the numbers that a float is read as. `argv` is a list of texts that is read at the index `i`, as the
-- code does; the environment of the process is a dictionary. The messages are left out.
pub mod Reads
pub mod Tier
mod Tests
use questwend.Prelude.{
  ℕ, zero, suc, ◌+◌, ◌-◌, ◌*◌, ◌/◌, ◌%◌, ◌^◌, List, [], ◌∷◌, Bytes, codes, Bool, true, false, ◌&&◌,
  ◌||◌, not, Option, none, some, ltb, get_elem?, leb, ◌==◌, if◌then◌else◌, bytes_eq, length, min,
}
use questwend.Prelude.Dict.{Dict, insert, bytes_key}
use questwend.Prelude.Int.{ℤ}

-- `std::stoi`, `std::stoul`, `std::stof`, where `none` is an exception, and the parsers of
-- core/runtime.cpp, where `none` is false.
pub record Readers : Type 1 where
  pub F : Type 0
  pub stoi : Bytes → Option ℤ
  pub stoul : Bytes → Option ℕ
  pub stof : Bytes → Option F
  pub parse_gpu_list : Bytes → Option (List ℤ)
  pub parse_gpu_split : Bytes → Option (List F)
  pub parse_vram_budget_list : Bytes → Option (List ℕ)

pub data ExpertTier : Type 0 where
  auto : ExpertTier
  ram : ExpertTier
  ssd : ExpertTier

-- `VRAM_BUDGET_AUTO`, the greatest `size_t`.
abbrev pub vram_budget_auto : ℕ
vram_budget_auto = 2 ^ 64 - 1

module _ (readers : Readers) where
  open readers use {F, stoi, stoul, stof, parse_gpu_list, parse_gpu_split, parse_vram_budget_list}

  pub record CommonOptions : Type 0 where
    pub model_path : Bytes
    pub n_ctx : ℤ
    pub force_cpu : Bool
    pub cache_profile : Bytes
    pub mmproj_path : Bytes
    pub ngram_mode : Bytes
    pub ngram_cache_mb : ℕ
    pub reasoning : Bool
    pub use_mtp : Bool
    pub n_draft : ℤ
    pub embd_q8 : Bool
    pub repeat_penalty : F
    pub gpu_ids : List ℤ
    pub gpu_split : List F
    pub gpu_split_given : Bool
    pub vram_list : List ℕ
    pub experts_ram_req : Bool
    pub experts_ssd_req : Bool
    pub experts_auto_req : Bool
    pub experts_ram_legacy : Bool
    pub experts_ssd_legacy : Bool

  -- `experts_auto_req || experts_ram_req == experts_ssd_req`
  unfoldable pub tier : CommonOptions → ExpertTier
  tier o =
      if o.experts_auto_req
      then ExpertTier.auto
      else if o.experts_ram_req
      then (if o.experts_ssd_req then ExpertTier.auto else ExpertTier.ram)
      else if o.experts_ssd_req
      then ExpertTier.ssd
      else ExpertTier.auto

  -- `ArgResult`. `consumed` holds the index `i`, the options and the environment as the call leaves
  -- them; after an error the process ends. `thrown` is an exception of a conversion, and `overrun` a
  -- read of `argv` at `argc` or behind it.
  pub data ArgResult : Type 0 where
    consumed : ℕ → CommonOptions → Dict Bytes Bytes → ArgResult
    unknown : ArgResult
    error : ArgResult
    thrown : ArgResult
    overrun : ArgResult

  -- `setenv`, which overwrites.
  unfoldable pub set_knob : Bytes → Bytes → Dict Bytes Bytes → Dict Bytes Bytes
  set_knob env val environment = insert env val environment

  -- `argv[++i]`
  unfoldable pub next : List Bytes → ℕ → (Bytes → ArgResult) → ArgResult
  next argv i f = elim (get_elem? argv (i + 1)) [ none ↦ overrun | some v ↦ f v ]

  -- An exception leaves the function, a value that is refused is an error.
  unfoldable pub or_thrown {ℓ} :
      {A : Type ℓ} → Option A → ℕ → (A → CommonOptions) → Dict Bytes Bytes → ArgResult
  or_thrown none i f environment = thrown
  or_thrown (some a) i f environment = consumed i (f a) environment

  unfoldable pub or_error {ℓ} :
      {A : Type ℓ} → Option A → ℕ → (A → CommonOptions) → Dict Bytes Bytes → ArgResult
  or_error none i f environment = error
  or_error (some a) i f environment = consumed i (f a) environment

  unfoldable pub parse_experts : Bytes → CommonOptions → Option CommonOptions
  parse_experts v o =
      if bytes_eq v (codes "ram")
      then some (record o { experts_ram_req = true })
      else if bytes_eq v (codes "ssd")
      then some (record o { experts_ssd_req = true })
      else if bytes_eq v (codes "auto")
      then some (record o { experts_auto_req = true })
      else none

  abbrev is_off : Bytes → Bool
  is_off v = bytes_eq v (codes "off") || (bytes_eq v (codes "0") || bytes_eq v (codes "false"))

  abbrev is_alloc : Bytes → Bool
  is_alloc v = bytes_eq v (codes "lru") || (bytes_eq v (codes "quota") || bytes_eq v (codes "auto"))

  -- The aliases of the `QWEN_*` variables, the last part of the chain.
  unfoldable pub parse_tuning :
      List Bytes → ℕ → Bytes → Bool → CommonOptions → Dict Bytes Bytes → ArgResult
  parse_tuning argv i a has_val o environment =
      if bytes_eq a (codes "--resident-decode")
      then consumed i o (set_knob (codes "QWEN_RESIDENT_DECODE") (codes "1") environment)
      else if bytes_eq a (codes "--ssd-direct")
      then consumed i o (set_knob (codes "QWEN_SSD_DIRECT") (codes "1") environment)
      else if bytes_eq a (codes "--resident-refill") && has_val
      then next argv i
          (λ v. consumed (i + 1) o (set_knob (codes "QWEN_RESIDENT_REFILL") v environment))
      else if bytes_eq a (codes "--resident-warmup") && has_val
      then next argv i
          (λ v. consumed (i + 1) o (set_knob (codes "QWEN_RESIDENT_WARMUP") v environment))
      else if bytes_eq a (codes "--prefill-prune") && has_val
      then next argv i
          (λ v. consumed (i + 1) o (set_knob (codes "QWEN_PREFILL_PRUNE") v environment))
      else if bytes_eq a (codes "--batch-chunk") && has_val
      then next argv i (λ v. consumed (i + 1) o (set_knob (codes "QWEN_BATCH_CHUNK") v environment))
      else if bytes_eq a (codes "--expert-alloc") && has_val
      then next argv i (λ v.
        if is_alloc v
        then consumed (i + 1) o (set_knob (codes "QWEN_EXPERT_ALLOC") v environment)
        else error)
      else unknown

  -- The chain of tests of the option `a`, in the order of the code.
  unfoldable pub parse_option :
      List Bytes → ℕ → Bytes → Bool → CommonOptions → Dict Bytes Bytes → ArgResult
  parse_option argv i a has_val o environment =
      if bytes_eq a (codes "-m") && has_val
      then next argv i (λ v. consumed (i + 1) (record o { model_path = v }) environment)
      else if bytes_eq a (codes "--n-ctx") && has_val
      then next argv i (λ v. or_thrown (stoi v) (i + 1) (λ n. record o { n_ctx = n }) environment)
      else if bytes_eq a (codes "--cpu")
      then consumed i (record o { force_cpu = true }) environment
      else if bytes_eq a (codes "--mmproj") && has_val
      then next argv i (λ v. consumed (i + 1) (record o { mmproj_path = v }) environment)
      else if bytes_eq a (codes "--cache-profile") && has_val
      then next argv i (λ v. consumed (i + 1) (record o { cache_profile = v }) environment)
      else if bytes_eq a (codes "--ngram") && has_val
      then next argv i (λ v. consumed (i + 1) (record o { ngram_mode = v }) environment)
      else if bytes_eq a (codes "--ngram-cache") && has_val
      then next argv i
          (λ v. or_thrown (stoul v) (i + 1) (λ n. record o { ngram_cache_mb = n }) environment)
      else if bytes_eq a (codes "--mtp")
      then consumed i (record o { use_mtp = true }) environment
      else if bytes_eq a (codes "--draft") && has_val
      then next argv i (λ v. or_thrown (stoi v) (i + 1) (λ n. record o { n_draft = n }) environment)
      else if bytes_eq a (codes "--embd-q8")
      then consumed i (record o { embd_q8 = true }) environment
      else if bytes_eq a (codes "--repeat-penalty") && has_val
      then next argv i
          (λ v. or_thrown (stof v) (i + 1) (λ p. record o { repeat_penalty = p }) environment)
      else if bytes_eq a (codes "--reasoning") && has_val
      then next argv i (λ v. consumed (i + 1) (record o { reasoning = not (is_off v) }) environment)
      else if bytes_eq a (codes "--experts-ssd")
      then consumed i (record o { experts_ssd_req = true; experts_ssd_legacy = true }) environment
      else if bytes_eq a (codes "--experts-ram")
      then consumed i (record o { experts_ram_req = true; experts_ram_legacy = true }) environment
      else if bytes_eq a (codes "--experts") && has_val
      then next argv i (λ v. or_error (parse_experts v o) (i + 1) (λ o1. o1) environment)
      else if bytes_eq a (codes "--gpus") && has_val
      then next argv i
          (λ v. or_error (parse_gpu_list v) (i + 1) (λ ids. record o { gpu_ids = ids }) environment)
      else if bytes_eq a (codes "--gpu-split") && has_val
      then next argv i (λ v.
        or_error (parse_gpu_split v) (i + 1)
          (λ split. record o { gpu_split = split; gpu_split_given = true }) environment)
      else if bytes_eq a (codes "--vram-budget") && has_val
      then next argv i (λ v.
        or_error (parse_vram_budget_list v) (i + 1) (λ budgets. record o { vram_list = budgets })
          environment)
      else parse_tuning argv i a has_val o environment

  unfoldable pub parse_common_arg : List Bytes → ℕ → CommonOptions → Dict Bytes Bytes → ArgResult
  parse_common_arg argv i o environment = elim (get_elem? argv i) [
    | none ↦ overrun
    | some a ↦ parse_option argv i a (ltb (i + 1) (length argv)) o environment
  ]

  unfoldable pub validate_common_options : CommonOptions → Bool
  validate_common_options o = elim o.vram_list [
    | [] ↦ true
    | budget ∷ budgets ↦ not (
        (length budgets == 0 && budget == 0) && (leb (length o.gpu_ids) 1 && not o.gpu_split_given))
  ]

  unfoldable pub reserve_vision_tower_vram : CommonOptions → ℕ → CommonOptions
  reserve_vision_tower_vram o tower_bytes = elim o.vram_list [
    | [] ↦ o
    | primary ∷ budgets ↦
        let vmb = (tower_bytes + 1024 * 1024 - 1) % 2 ^ 64 / (1024 * 1024) in
        let reserved = record o { vram_list = (primary - min primary vmb) ∷ budgets } in
        if primary == vram_budget_auto then o else reserved
  ]
