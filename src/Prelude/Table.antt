-- ===== src/Prelude/Table.antt =====
-- A test of every number below a bound, run by evaluation.
use Prim.Native.Nat.{ℕ, zero, suc, ◌<◌}
use mathlib.Core.Bool.{Bool, true, ◌&&◌}
use mathlib.Core.Path.{◌≡◌}
use native.Mathlib.Omega.{arith}

module _ (test : ℕ → Bool) where
  unfoldable pub passes : ℕ → Bool
  passes zero = true
  passes (suc bound) = passes bound && test bound

  -- The value at which the test is wanted is one of those that were run.
  pub test_of_passes : {k : ℕ} (bound : ℕ) → k < bound → passes bound ≡ true → test k ≡ true
  unfolding passes
  test_of_passes zero h run = elim h [ ]
  test_of_passes {k} (suc bound) h run = ground (arith, test_of_passes {k = k} bound)
