-- ===== src/Tokenizer/Pretokenize.antt =====
-- core/tokenizer.cpp: `pretokenize_qwen`, `pretokenize_deepseek3` and `pretokenize`.
pub mod Bounds
pub mod Lossless
use questwend.Prelude.{
  ℕ, ◌+◌, ◌-◌, List, Bytes, Bool, true, false, ◌&&◌, ◌||◌, not, ltb, ◌==◌, if◌then◌else◌, length,
}
use questwend.Tokenizer.Utf8.{Codepoint}
use questwend.Tokenizer.Classes.{
  cp_is_number, cp_is_cjk_run, cp_is_punct_or_symbol, cp_is_space, cp_is_letter, rule3_letter,
  is_letter, is_punct, lower, newline,
}
use questwend.Tokenizer.Split.{at, run_end, run_end_limited, newline_end, split_all}

-- The contraction test `'s 't 'm 'd 're 've 'll`: the number of codepoints taken, 0 for none.
unfoldable pub contraction : List Codepoint → ℕ → ℕ
contraction cps i =
    let n = length cps in
    let c = (at cps i).cp in
    let d = lower (at cps (i + 1)).cp in
    let e = lower (at cps (i + 2)).cp in
    if c == 0x27 && ltb (i + 1) n
    then if d == b's' || d == b't' || d == b'm' || d == b'd'
      then 2
      else if ltb (i + 2) n
          && ((d == b'r' && e == b'e') || (d == b'v' && e == b'e') || (d == b'l' && e == b'l'))
      then 3
      else 0
    else 0

-- `\s*[\r\n]+ | \s+(?!\S) | \s+`: the end of a whitespace piece, `i` itself if there is none.
unfoldable pub space_end : List Codepoint → ℕ → ℕ
space_end cps i =
    let j = run_end cp_is_space cps i in
    let nl_end = newline_end cps i j in
    if ltb i nl_end then nl_end else if ltb j (length cps) && ltb 1 (j - i) then j - 1 else j

-- A run of symbols from `j` on, with the newlines behind it.
unfoldable pub symbol_end : (ℕ → Bool) → List Codepoint → ℕ → ℕ
symbol_end p cps j = run_end newline cps (run_end p cps j)

-- The loop body of `pretokenize_qwen` at `i < n`: the end of the piece that starts at `i`.
unfoldable pub qwen_end : ℕ → List Codepoint → ℕ → ℕ
qwen_end max_digits cps i =
    let n = length cps in
    let c = (at cps i).cp in
    if ltb 0 (contraction cps i)
    then i + contraction cps i
    else if is_letter c
    then run_end is_letter cps (i + 1)
    else if not (newline c)
        && not (cp_is_number c)
        && ltb (i + 1) n
        && is_letter (at cps (i + 1)).cp
    then run_end is_letter cps (i + 2)
    else if cp_is_number c
    then run_end_limited cp_is_number max_digits cps i
    else if is_punct c || (c == 0x20 && ltb (i + 1) n && is_punct (at cps (i + 1)).cp)
    then symbol_end is_punct cps (if c == 0x20 then i + 1 else i)
    else space_end cps i

abbrev ascii_run : ℕ → Bool
ascii_run c = ltb c 0x80 && cp_is_letter c

-- The loop body of `pretokenize_deepseek3`.
unfoldable pub deepseek_end : List Codepoint → ℕ → ℕ
deepseek_end cps i =
    let n = length cps in
    let c = (at cps i).cp in
    let next = (at cps (i + 1)).cp in
    if cp_is_number c
    then run_end_limited cp_is_number 3 cps i
    else if cp_is_cjk_run c
    then run_end cp_is_cjk_run cps (i + 1)
    else if ltb c 0x80 && cp_is_punct_or_symbol c && ltb (i + 1) n && ascii_run next
    then run_end ascii_run cps (i + 2)
    else if rule3_letter c
    then run_end rule3_letter cps (i + 1)
    else if not (newline c)
        && not (cp_is_letter c)
        && not (cp_is_punct_or_symbol c)
        && not (cp_is_number c)
        && ltb (i + 1) n
        && rule3_letter next
    then run_end rule3_letter cps (i + 2)
    else if cp_is_punct_or_symbol c || (c == 0x20 && ltb (i + 1) n && cp_is_punct_or_symbol next)
    then symbol_end cp_is_punct_or_symbol cps (if c == 0x20 then i + 1 else i)
    else if ltb i (space_end cps i)
    then space_end cps i
    else i + 1

unfoldable pub pretokenize_qwen : Bytes → ℕ → List Bytes
pretokenize_qwen text max_digits = split_all (qwen_end max_digits) text

unfoldable pub pretokenize_deepseek3 : Bytes → List Bytes
pretokenize_deepseek3 text = split_all deepseek_end text

-- `enum class Pre`.
pub data Pre : Type 0 where
  qwen deepseek3 llama3 : Pre

unfoldable pub pretokenize : Pre → Bytes → List Bytes
pretokenize Pre.deepseek3 text = pretokenize_deepseek3 text
pretokenize Pre.llama3 text = pretokenize_qwen text 3
pretokenize Pre.qwen text = pretokenize_qwen text 1
