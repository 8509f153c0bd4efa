-- ===== src/Ngram/Hash.antt =====
-- core/ngram_table.cpp: `NgramTable::hash_rows`. A token is an `int32_t`, and its history is the list
-- of the tokens before it, oldest first.
pub mod Segments
pub mod Batches
pub mod Loop
use questwend.Prelude.{
  ℕ, zero, suc, ◌+◌, ◌-◌, ◌*◌, ◌%◌, ◌^◌, List, [], ◌∷◌, ◌++◌, Bool, true, false, ◌&&◌, ◌||◌,
  bit_xor, leb, ltb, ◌==◌, if◌then◌else◌, length, drop, replicate, get_or, set,
}
use questwend.Prelude.Int.{ℤ, pos, negsuc}

-- The members of `NgramTable::Impl` that the hash reads.
pub record Geometry : Type 0 where
  pub n_heads : ℕ
  pub ngram : ℕ
  pub per_gram : ℕ
  pub eos : ℤ
  pub mult : List ℕ
  pub offset : List ℕ
  pub vocab : List ℕ

abbrev pub int_eq : ℤ → ℤ → Bool
int_eq (pos a) (pos b) = a == b
int_eq (negsuc a) (negsuc b) = a == b
int_eq _ _ = false

-- `(uint64_t) x` of an `int64_t`.
unfoldable pub to_u64 : ℤ → ℕ
to_u64 (pos n) = n % 2 ^ 64
to_u64 (negsuc n) = 2 ^ 64 - 1 - n

-- A short history is filled up with the segment boundary.
unfoldable pub pad : Geometry → List ℤ → List ℤ
pad im hist =
    if ltb (length hist) (im.ngram - 1)
    then replicate (im.ngram - 1 - length hist) im.eos ++ hist
    else hist

-- The lambda `prev(s)` at token `i`.
unfoldable pub prev : Geometry → List ℤ → List ℤ → ℕ → ℕ → ℤ
prev im prev_hist tokens i s =
    if leb s i
    then get_or tokens (i - s) im.eos
    else if leb (s - i) (length prev_hist)
    then get_or prev_hist (length prev_hist - (s - i)) im.eos
    else im.eos

-- `for (s = …; s < ngram; ++s) { ctx[s] = cut ? eos : prev(s); if (ctx[s] == eos) cut = true; }`
-- with `left` rounds to go.
unfoldable pub window : Geometry → List ℤ → List ℤ → ℕ → ℕ → ℕ → Bool → List ℤ
window im prev_hist tokens i zero s cut = []
window im prev_hist tokens i (suc left) s cut =
    let v = if cut then im.eos else prev im prev_hist tokens i s in
    v ∷ window im prev_hist tokens i left (s + 1) (cut || int_eq v im.eos)

unfoldable pub context : Geometry → List ℤ → List ℤ → ℕ → List ℤ
context im prev_hist tokens i =
    get_or tokens i im.eos ∷ window im prev_hist tokens i (im.ngram - 1) 1 false

-- `ctx[j] * mult[j]` in `uint64_t`
unfoldable pub term : Geometry → List ℤ → ℕ → ℕ
term im ctx j = to_u64 (get_or ctx j im.eos) * get_or im.mult j 0 % 2 ^ 64

-- `for (j = …; j < g; ++j) mixed ^= ctx[j] * mult[j];` with `left` rounds to go.
unfoldable pub mix : Geometry → List ℤ → ℕ → ℕ → ℕ → ℕ
mix im ctx zero j mixed = mixed
mix im ctx (suc left) j mixed = mix im ctx left (j + 1) (bit_xor mixed (term im ctx j))

-- The loop over the heads of one gram: pairs of a place in the token's rows and the row there.
unfoldable pub head_rows : Geometry → ℕ → ℕ → ℕ → List (ℕ × ℕ)
head_rows im mixed zero hi = []
head_rows im mixed (suc left) hi =
    (hi, (mixed % get_or im.vocab hi 0 + get_or im.offset hi 0) % 2 ^ 64 % 2 ^ 32)
    ∷ head_rows im mixed left (hi + 1)

-- `for (g = …; g <= ngram; ++g)` with `left` rounds to go.
unfoldable pub gram_rows : Geometry → List ℤ → ℕ → ℕ → List (ℕ × ℕ)
gram_rows im ctx zero g = []
gram_rows im ctx (suc left) g =
    head_rows im (mix im ctx (g - 1) 1 (term im ctx 0)) im.per_gram ((g - 2) * im.per_gram)
    ++ gram_rows im ctx left (g + 1)

-- The assignments to `out` from `base` on.
unfoldable pub write_rows : ℕ → List (ℕ × ℕ) → List ℕ → List ℕ
write_rows base [] out = out
write_rows base ((hi, row) ∷ rows) out = write_rows base rows (set out (base + hi) row)

-- `for (i = …; i < n; ++i)` with `left` rounds to go.
unfoldable pub token_loop : Geometry → List ℤ → List ℤ → ℕ → ℕ → ℕ → List ℕ → List ℕ
token_loop im prev_hist tokens base_out zero i out = out
token_loop im prev_hist tokens base_out (suc left) i out =
    token_loop im prev_hist tokens base_out left (i + 1) (
      write_rows (base_out + i * im.n_heads)
        (gram_rows im (context im prev_hist tokens i) (im.ngram - 1) 2) out)

-- `hist = prev_hist; hist.insert(end, tokens); hist.erase(begin, end - (ngram - 1));`
unfoldable pub carry : Geometry → List ℤ → List ℤ → List ℤ
carry im prev_hist tokens = let all = prev_hist ++ tokens in drop (length all - (im.ngram - 1)) all

-- `hash_rows(tokens, n, hist, out)`: the new history and the new output.
unfoldable pub hash_rows : Geometry → List ℤ → List ℤ → List ℕ → List ℤ × List ℕ
hash_rows im tokens hist out =
    let prev_hist = pad im hist in
    let room = out ++ replicate (length tokens * im.n_heads) 0 in
    (carry im prev_hist tokens, token_loop im prev_hist tokens (length out) (length tokens) 0 room)
