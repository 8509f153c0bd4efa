-- ===== src/Prelude/Bits.antt =====
-- `&` and `|` at variables: laws from the digit recursion that both are defined by.
use Prim.Native.Nat.{bit_and, bit_or, bit_and-bitwise, bit_or-bitwise, digits, max, min}
use Prim.Native.Nat.{ℕ, suc, zero, ◌<◌, ◌≤◌, ◌%◌, ◌/◌, ◌*◌, ◌-◌, ◌+◌}
use native.Mathlib.Omega.{arith}
use mathlib.Core.Path.{◌≡◌, refl, ◌∙◌, ap}

-- Both operations walk down the digits of the first number: `rest` is what they give once it has
-- run out, and `op` joins two digits. The first argument of `walk` bounds the number of digits.
module _ (rest : ℕ → ℕ) (op : ℕ → ℕ → ℕ) where
  abbrev walk : ℕ → ℕ → ℕ → ℕ
  walk = digits rest op

  walk_once : (bound x y : ℕ) → x ≤ bound → walk (suc bound) x y ≡ walk bound x y
  walk_once zero zero y fits = refl
  walk_once zero (suc x) y fits = elim fits [ ]
  walk_once (suc bound) zero y fits = refl
  walk_once (suc bound) (suc x) y fits =
      let shorter = walk_once bound (suc x / 2) (y / 2) (omega arith) in omega (arith, shorter)

  walk_spare : (spare x y : ℕ) → walk (spare + x) x y ≡ walk x x y
  walk_spare zero x y = ap (λ (k : ℕ). walk k x y) {x = 0 + x} (omega arith)
  walk_spare (suc spare) x y =
      ap (λ (k : ℕ). walk k x y) {x = suc spare + x} {y = suc (spare + x)} (omega arith)
      ∙ walk_once (spare + x) x y (omega arith)
      ∙ walk_spare spare x y

  -- A bound that is large enough may be replaced by the number itself.
  walk_bound : (bound x y : ℕ) → x ≤ bound → walk bound x y ≡ walk x x y
  walk_bound bound x y fits =
      ap (λ (k : ℕ). walk k x y) {y = bound - x + x} (omega arith) ∙ walk_spare (bound - x) x y

  -- The lowest digit of the result, and the others.
  walk_digit :
      (x y : ℕ)
      → walk (suc x) (suc x) y ≡ walk (suc x / 2) (suc x / 2) (y / 2) * 2 + op (suc x % 2) (y % 2)
  walk_digit x y = omega (arith, walk_bound x (suc x / 2) (y / 2) (omega arith))

-- One binary digit of `x & y`, and of `x | y`.
bit_and_step : (x y : ℕ) → bit_and x y ≡ bit_and (x / 2) (y / 2) * 2 + min (x % 2) (y % 2)
bit_and_step zero y = omega (arith, bit_and-bitwise 0 y, bit_and-bitwise 0 (y / 2))
bit_and_step (suc x) y = omega (
  arith,
  walk_digit (λ _. zero) min x y,
  bit_and-bitwise (suc x / 2) (y / 2),
  bit_and-bitwise (suc x) y,
)

bit_or_step : (x y : ℕ) → bit_or x y ≡ bit_or (x / 2) (y / 2) * 2 + max (x % 2) (y % 2)
bit_or_step zero y = omega (arith, bit_or-bitwise 0 y, bit_or-bitwise 0 (y / 2))
bit_or_step (suc x) y = omega (
  arith,
  walk_digit (λ b. b) max x y,
  bit_or-bitwise (suc x / 2) (y / 2),
  bit_or-bitwise (suc x) y,
)

-- Against zero, by the digits that are left.
bit_and_none : (bound x : ℕ) → x ≤ bound → bit_and x 0 ≡ 0
bit_and_none bound zero fits = refl
bit_and_none zero (suc x) fits = elim fits [ ]
bit_and_none (suc bound) (suc x) fits =
    omega (arith, bit_and_step (suc x) 0, bit_and_none bound (suc x / 2) (omega arith))

bit_or_none : (bound x : ℕ) → x ≤ bound → bit_or x 0 ≡ x
bit_or_none bound zero fits = refl
bit_or_none zero (suc x) fits = elim fits [ ]
bit_or_none (suc bound) (suc x) fits =
    omega (arith, bit_or_step (suc x) 0, bit_or_none bound (suc x / 2) (omega arith))

-- Masks of ones keep the low bits.
pub bit_and_7 : (v : ℕ) → bit_and v 0x07 ≡ v % 8
bit_and_7 v =
    let high = bit_and_none (v / 2 / 2 / 2) (v / 2 / 2 / 2) (omega arith) in
    omega (arith, high, bit_and_step (v / 2 / 2) 1, bit_and_step (v / 2) 3, bit_and_step v 7)

pub bit_and_15 : (v : ℕ) → bit_and v 0x0F ≡ v % 16
bit_and_15 v = omega (arith, bit_and_step v 15, bit_and_7 (v / 2))

pub bit_and_31 : (v : ℕ) → bit_and v 0x1F ≡ v % 32
bit_and_31 v = omega (arith, bit_and_step v 31, bit_and_15 (v / 2))

pub bit_and_63 : (v : ℕ) → bit_and v 0x3F ≡ v % 64
bit_and_63 v = omega (arith, bit_and_step v 63, bit_and_31 (v / 2))

bit_or_even : (a b : ℕ) → bit_or (a * 2) b ≡ bit_or a (b / 2) * 2 + b % 2
bit_or_even a b =
    let half : a * 2 / 2 ≡ a = omega arith in grind (arith, bit_or_step (a * 2) b, half)

-- `a << k`, by doubling.
abbrev double : ℕ → ℕ → ℕ
double zero a = a
double (suc k) a = double k a * 2

abbrev two_pow : ℕ → ℕ
two_pow zero = 1
two_pow (suc k) = two_pow k * 2

bit_or-double : (k a b : ℕ) → b < two_pow k → bit_or (double k a) b ≡ double k a + b
bit_or-double zero a b h =
    let z : b ≡ 0 = omega arith in rw z (omega (arith, bit_or_none a a (omega arith)))
bit_or-double (suc k) a b h =
    omega (arith, bit_or_even (double k a) b, bit_or-double k a (b / 2) (omega arith))

-- `(a << 6) | b`, where `b` has six bits: the bits do not meet.
pub bit_or_low6 : (a b : ℕ) → b < 64 → bit_or (a * 64) b ≡ a * 64 + b
bit_or_low6 a b h =
    let e : a * 64 ≡ double 6 a = omega arith in rw e (bit_or-double 6 a b (omega arith))

-- The lead byte of two, of three and of four, and a continuation byte.
pub bit_or_C0 : (b : ℕ) → b < 32 → bit_or 0xC0 b ≡ 0xC0 + b
bit_or_C0 b h = bit_or-double 5 6 b (omega arith)

pub bit_or_E0 : (b : ℕ) → b < 16 → bit_or 0xE0 b ≡ 0xE0 + b
bit_or_E0 b h = bit_or-double 4 14 b (omega arith)

pub bit_or_F0 : (b : ℕ) → b < 8 → bit_or 0xF0 b ≡ 0xF0 + b
bit_or_F0 b h = bit_or-double 3 30 b (omega arith)

pub bit_or_80 : (b : ℕ) → b < 64 → bit_or 0x80 b ≡ 0x80 + b
bit_or_80 b h = bit_or-double 6 2 b (omega arith)

bit_and_127 : (v : ℕ) → bit_and v 0x7F ≡ v % 128
bit_and_127 v = omega (arith, bit_and_step v 127, bit_and_63 (v / 2))

pub bit_and_255 : (v : ℕ) → bit_and v 0xFF ≡ v % 256
bit_and_255 v = omega (arith, bit_and_step v 255, bit_and_127 (v / 2))
