-- ===== src/Tokenizer/Split.antt =====
-- core/tokenizer.cpp: what the two pre-tokenizers share. A scan is at codepoint `i`; every branch of
-- its loop body does `emit(i, j); i = j; continue;` for an end `j`, so the body is a function from
-- `i` to `j`, and the loop `split_from` takes it as an argument.
pub mod Lossless
use questwend.Prelude.{
  ℕ, zero, suc, ◌+◌, ◌-◌, List, [], ◌∷◌, ◌++◌, Bytes, Bool, some, none, leb, ltb, if◌then◌else◌,
  length, drop, take, substr, get_elem?,
}
use questwend.Tokenizer.Utf8.{Codepoint, utf8_decode}
use questwend.Tokenizer.Classes.{newline}

-- `cps[i]`; every read of the source is inside the array, so the default is never taken.
unfoldable pub at : List Codepoint → ℕ → Codepoint
at cps i = elim (get_elem? cps i) [ some c ↦ c | none ↦ record { cp = 0; off = 0; len = 0 } ]

-- How many codepoints at the front pass the test, `limit` at most.
unfoldable pub run_limited : (ℕ → Bool) → ℕ → List Codepoint → ℕ
run_limited p zero cs = 0
run_limited p (suc limit) [] = 0
run_limited p (suc limit) (c ∷ cs) =
    let rest = run_limited p limit cs in if p c.cp then suc rest else 0

-- `while (j < n && p(cps[j].cp)) ++j;`
unfoldable pub run_end : (ℕ → Bool) → List Codepoint → ℕ → ℕ
unfolding run_limited
run_end p cps j = j + run_limited p (length cps) (drop j cps)

-- `while (j < n && j - i < limit && p(cps[j].cp)) ++j;` from `j = i + 1`
unfoldable pub run_end_limited : (ℕ → Bool) → ℕ → List Codepoint → ℕ → ℕ
unfolding run_limited
run_end_limited p limit cps i = (i + 1) + run_limited p (limit - 1) (drop (i + 1) cps)

-- `for (k = i; k < j; ++k) if (cps[k] is \r or \n) nl_end = k + 1;` over the codepoints from `k` on
unfoldable pub newline_loop : List Codepoint → ℕ → ℕ → ℕ
newline_loop [] k nl_end = nl_end
newline_loop (c ∷ cs) k nl_end = newline_loop cs (suc k) (if newline c.cp then suc k else nl_end)

unfoldable pub newline_end : List Codepoint → ℕ → ℕ → ℕ
unfolding newline_loop
newline_end cps i j = newline_loop (take (j - i) (drop i cps)) i i

-- `emit(a, b)`
unfoldable pub emit : Bytes → List Codepoint → ℕ → ℕ → List Bytes
unfolding at
emit text cps a b =
    if leb b a
    then []
    else (let last = at cps (b - 1) in
        substr text (at cps a).off (last.off + last.len - (at cps a).off))
      ∷ []

-- `while (i < n) { …; emit(i, j); i = j; }`
unfoldable pub split_from : (List Codepoint → ℕ → ℕ) → ℕ → Bytes → List Codepoint → ℕ → List Bytes
unfolding emit
split_from piece_end zero text cps i = []
split_from piece_end (suc fuel) text cps i =
    let j = piece_end cps i in
    let rest = split_from piece_end fuel text cps j in
    if ltb i (length cps) then emit text cps i j ++ rest else []

-- A round takes a codepoint at least, so their number is fuel enough.
unfoldable pub split_all : (List Codepoint → ℕ → ℕ) → Bytes → List Bytes
unfolding split_from
split_all piece_end text =
    let cps = utf8_decode text in split_from piece_end (length cps) text cps 0
