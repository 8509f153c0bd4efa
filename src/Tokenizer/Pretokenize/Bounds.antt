-- ===== src/Tokenizer/Pretokenize/Bounds.antt =====
-- Every branch of the two loop bodies ends a piece behind its start and inside the array.
use questwend.Prelude.{
  ℕ, zero, suc, ◌+◌, ◌-◌, ◌≤◌, ◌<◌, ◌≡◌, List, [], ◌∷◌, Bool, true, false, ◌&&◌, ◌||◌, ltb, ◌==◌,
  if◌then◌else◌, arith, length, drop, take, length-take, length-drop,
}
use questwend.Tokenizer.Utf8.{Codepoint}
use questwend.Tokenizer.Classes.{
  cp_is_number, cp_is_cjk_run, cp_is_punct_or_symbol, cp_is_space, rule3_letter, is_letter,
  is_punct, newline,
}
use questwend.Tokenizer.Split.{at, run_limited, run_end, run_end_limited, newline_loop, newline_end}
use questwend.Tokenizer.Pretokenize.{
  contraction, space_end, symbol_end, ascii_run, qwen_end, deepseek_end,
}
use questwend.Tokenizer.Split.Lossless.{Advances}

run_limited-le :
    (p : ℕ → Bool) (limit : ℕ) (cs : List Codepoint) → run_limited p limit cs ≤ length cs
unfolding run_limited
run_limited-le p zero cs = omega arith
run_limited-le p (suc limit) [] = omega arith
run_limited-le p (suc limit) (c ∷ cs) = ground (arith, run_limited-le p limit cs)

run_end_bounds :
    (p : ℕ → Bool) (cps : List Codepoint) (j : ℕ)
    → j ≤ length cps
    → (j ≤ run_end p cps j) × (run_end p cps j ≤ length cps)
unfolding run_end
run_end_bounds p cps j h =
    omega (arith, run_limited-le p (length cps) (drop j cps), length-drop {0} j cps)

run_end_limited_bounds :
    (p : ℕ → Bool) (limit : ℕ) (cps : List Codepoint) (i : ℕ)
    → i < length cps
    → (i < run_end_limited p limit cps i) × (run_end_limited p limit cps i ≤ length cps)
unfolding run_end_limited
run_end_limited_bounds p limit cps i h =
    omega (arith, run_limited-le p (limit - 1) (drop (i + 1) cps), length-drop {0} (i + 1) cps)

run_limited_first :
    (p : ℕ → Bool) (k : ℕ) (cps : List Codepoint) (i : ℕ)
    → i < length cps
    → p (at cps i).cp ≡ true
    → 0 < run_limited p (suc k) (drop i cps)
unfolding run_limited at
run_limited_first p k [] i h e = absurd (omega arith)
run_limited_first p k (c ∷ cps) zero h e = ground arith
run_limited_first p k (c ∷ cps) (suc i) h e = run_limited_first p k cps i (omega arith) e

-- A run that starts on a codepoint of the class takes it.
run_end_first :
    (p : ℕ → Bool) (cps : List Codepoint) (i : ℕ)
    → i < length cps
    → p (at cps i).cp ≡ true
    → i < run_end p cps i
unfolding run_end
run_end_first p [] i h e = absurd (omega arith)
run_end_first p (c ∷ cps) i h e = omega (arith, run_limited_first p (length cps) (c ∷ cps) i h e)

symbol_end_bounds :
    (p : ℕ → Bool) (cps : List Codepoint) (j : ℕ)
    → j ≤ length cps
    → (run_end p cps j ≤ symbol_end p cps j) × (symbol_end p cps j ≤ length cps)
unfolding symbol_end
symbol_end_bounds p cps j h =
    run_end_bounds newline cps (run_end p cps j) (run_end_bounds p cps j h).1

contraction_bounds :
    (cps : List Codepoint) (i : ℕ) → i < length cps → i + contraction cps i ≤ length cps
unfolding contraction
contraction_bounds cps i h = ground arith

newline_loop_bounds :
    (cs : List Codepoint) (k nl : ℕ) → nl ≤ k → newline_loop cs k nl ≤ k + length cs
unfolding newline_loop
newline_loop_bounds [] k nl h = omega arith
newline_loop_bounds (c ∷ cs) k nl h =
    ground (arith, newline_loop_bounds cs (suc k) (if newline c.cp then suc k else nl))

newline_end_bounds : (cps : List Codepoint) (i j : ℕ) → i ≤ j → newline_end cps i j ≤ j
unfolding newline_end
newline_end_bounds cps i j h = omega (
  arith,
  newline_loop_bounds (take (j - i) (drop i cps)) i i (omega arith),
  length-take {0} (j - i) (drop i cps),
)

space_end_bounds : (cps : List Codepoint) (i : ℕ) → i < length cps → space_end cps i ≤ length cps
unfolding space_end
space_end_bounds cps i h =
    let j = run_end cp_is_space cps i in
    let b = run_end_bounds cp_is_space cps i (omega arith) in
    ground (arith, newline_end_bounds cps i j b.0)

lt-space_end :
    (cps : List Codepoint) (i : ℕ)
    → i < length cps
    → cp_is_space (at cps i).cp ≡ true
    → i < space_end cps i
unfolding space_end
lt-space_end cps i h e = ground (arith, run_end_first cp_is_space cps i h e)

-- Only whitespace is neither a letter, a digit nor a symbol.
space_of_no_class :
    (c : ℕ)
    → is_letter c ≡ false
    → cp_is_number c ≡ false
    → is_punct c ≡ false
    → cp_is_space c ≡ true
unfolding is_punct
space_of_no_class c l d p = ground arith

-- A symbol run behind an optional space.
symbol_branch :
    (p : ℕ → Bool) (cps : List Codepoint) (i : ℕ)
    → i < length cps
    → (p (at cps i).cp
        || ((at cps i).cp == 0x20 && ltb (i + 1) (length cps) && p (at cps (i + 1)).cp))
      ≡ true
    → let j = (if (at cps i).cp == 0x20 then i + 1 else i) in
      (i < symbol_end p cps j) × (symbol_end p cps j ≤ length cps)
symbol_branch p cps i h e = ground (
  arith,
  symbol_end_bounds p cps i (omega arith),
  symbol_end_bounds p cps (i + 1) (omega arith),
  run_end_bounds p cps (i + 1) (omega arith),
  run_end_first p cps i h,
)

-- A run from behind `i`.
run_behind :
    (p : ℕ → Bool) (cps : List Codepoint) (i k : ℕ)
    → 0 < k
    → i + k ≤ length cps
    → (i < run_end p cps (i + k)) × (run_end p cps (i + k) ≤ length cps)
run_behind p cps i k pos h = omega (arith, run_end_bounds p cps (i + k) h)

-- Each branch of `pretokenize_qwen` takes a codepoint at least: the last branch is reached only by
-- whitespace.
pub qwen_end-Advances : (max_digits : ℕ) → Advances (qwen_end max_digits)
unfolding qwen_end
qwen_end-Advances max_digits cps i h =
    let c = (at cps i).cp in
    ground (
      arith,
      contraction_bounds cps i h,
      run_behind is_letter cps i 1 (omega arith) (omega arith),
      run_behind is_letter cps i 2 (omega arith),
      run_end_limited_bounds cp_is_number max_digits cps i h,
      symbol_branch is_punct cps i h,
      space_end_bounds cps i h,
      lt-space_end cps i h,
      space_of_no_class c,
    )

-- So does each branch of `pretokenize_deepseek3`.
pub deepseek_end-Advances : Advances deepseek_end
unfolding deepseek_end
deepseek_end-Advances cps i h = ground (
  arith,
  run_end_limited_bounds cp_is_number 3 cps i h,
  run_behind cp_is_cjk_run cps i 1 (omega arith) (omega arith),
  run_behind ascii_run cps i 2 (omega arith),
  run_behind rule3_letter cps i 1 (omega arith) (omega arith),
  run_behind rule3_letter cps i 2 (omega arith),
  symbol_branch cp_is_punct_or_symbol cps i h,
  space_end_bounds cps i h,
)
