-- ===== src/Args/Tests.antt =====
-- The shared options at a budget of 512 MB, with conversions that read nothing or a fixed list.
use questwend.Prelude.{
  ℕ, ◌-◌, ◌*◌, ◌≤◌, ◌≡◌, ◌≢◌, ◌⊎◌, ◌↔◌, refl, List, [], ◌∷◌, Bytes, codes, true, false, none, some,
  bytes_eq, arith,
}
use questwend.Prelude.Dict
use questwend.Prelude.Int.{pos}
use questwend.Args
use questwend.Args.{
  Readers, CommonOptions, consumed, unknown, parse_common_arg, validate_common_options,
  reserve_vision_tower_vram, vram_budget_auto, tier, ExpertTier,
}
use questwend.Args.Tier.{reserve_vision_tower_vram-validate}

abbrev fixed : Readers
fixed = record {
  F = ℕ;
  stoi = λ v. none;
  stoul = λ v. none;
  stof = λ v. none;
  parse_gpu_list = λ v. some (pos 1 ∷ pos 0 ∷ []);
  parse_gpu_split = λ v. none;
  parse_vram_budget_list = λ v. some (512 ∷ []);
}

abbrev options : CommonOptions fixed
options = record {
  model_path = [];
  n_ctx = pos 0;
  force_cpu = false;
  cache_profile = [];
  mmproj_path = [];
  ngram_mode = codes "disk";
  ngram_cache_mb = 256;
  reasoning = true;
  use_mtp = false;
  n_draft = pos 1;
  embd_q8 = false;
  repeat_penalty = 1;
  gpu_ids = [];
  gpu_split = [];
  gpu_split_given = false;
  vram_list = 512 ∷ [];
  experts_ram_req = true;
  experts_ssd_req = false;
  experts_auto_req = false;
  experts_ram_legacy = false;
  experts_ssd_legacy = false;
}

two_places : tier fixed (record options { experts_ssd_req = true }) ≡ ExpertTier.auto
unfolding tier
two_places = refl

abbrev line : List Bytes
line = codes "--gpus" ∷ codes "1,0" ∷ codes "--batch-chunk" ∷ codes "64" ∷ codes "--draft" ∷ []

sets_chunk :
    parse_common_arg fixed line 2 options []
    ≡ consumed 3 options ((codes "QWEN_BATCH_CHUNK", codes "64") ∷ [])
unfolding parse_common_arg Args.parse_option Args.parse_tuning Args.next Args.set_knob Dict.insert
    Dict.erase bytes_eq
sets_chunk = refl

-- The last argument has no value.
no_value : parse_common_arg fixed line 4 options [] ≡ unknown
unfolding parse_common_arg Args.parse_option Args.parse_tuning bytes_eq
no_value = refl

explicit : ◌≢◌ {A = ℕ} 512 vram_budget_auto
explicit e = absurd (omega arith)

reserve_vision_tower_vram-validate_example :
    let after = reserve_vision_tower_vram fixed options (900 * (1024 * 1024)) in
    ((validate_common_options fixed after ≡ true)
      ↔ (900 * (1024 * 1024) ≤ (512 - 1) * (1024 * 1024)))
    × ((validate_common_options fixed after ≡ true) ⊎ (after.vram_list ≡ 0 ∷ []))
unfolding validate_common_options
reserve_vision_tower_vram-validate_example =
    reserve_vision_tower_vram-validate fixed options 512 (900 * (1024 * 1024)) refl explicit
      (omega arith) refl refl (omega arith)
