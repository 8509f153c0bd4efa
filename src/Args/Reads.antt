-- ===== src/Args/Reads.antt =====
-- Where `parse_common_arg` reads `argv`, and how far it moves the index.
use questwend.Prelude.{ℕ, ◌+◌, ◌≤◌, ◌<◌, List, Bytes, length}
use questwend.Prelude.Dict.{Dict}
use questwend.Args.{Readers, ArgResult, consumed}

module _ (readers : Readers) where
  open readers use {stoi, stoul, stof, parse_gpu_list, parse_gpu_split, parse_vram_budget_list}

  -- A result that is not read at `argc` or behind it, and whose index is that of the last argument
  -- consumed, the option itself or the one behind it.
  unfoldable pub IsWithin : ℕ → ℕ → ArgResult readers → Type 0
  IsWithin argc i (consumed j o environment) = (i ≤ j) × (j ≤ i + 1) × (j < argc)
  IsWithin argc i ArgResult.unknown = Unit
  IsWithin argc i ArgResult.error = Unit
  IsWithin argc i ArgResult.thrown = Unit
  IsWithin argc i ArgResult.overrun = ⊥

  module _ (argv : List Bytes) (i : ℕ) where
    Within : ArgResult readers → Type 0
    Within = IsWithin (length argv) i
