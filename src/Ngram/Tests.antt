-- ===== src/Ngram/Tests.antt =====
-- The hash of a small table at concrete tokens.
use questwend.Prelude.{bytes_eq, some, ℕ, ◌≡◌, refl, List, [], ◌∷◌, ◌++◌, arith}
use questwend.Prelude.Int.{ℤ, pos}
use questwend.Ngram.Hash.{
  Geometry, to_u64, pad, prev, window, context, term, mix, head_rows, gram_rows, write_rows,
  token_loop, carry, hash_rows,
}
use questwend.Ngram.Hash.Batches
use questwend.Ngram.Mode.{Mode, mode_name, parse_mode}
use questwend.Ngram.Hash.Segments

-- Trigrams with two heads to a gram; the boundary is token 0.
abbrev table : Geometry
table = record {
  n_heads = 4;
  ngram = 3;
  per_gram = 2;
  eos = pos 0;
  mult = 7 ∷ 11 ∷ 13 ∷ [];
  offset = 0 ∷ 100 ∷ 200 ∷ 300 ∷ [];
  vocab = 97 ∷ 89 ∷ 83 ∷ 79 ∷ [];
}

abbrev hash : List ℤ → List ℤ → List ℕ → List ℤ × List ℕ
hash tokens hist out = hash_rows table tokens hist out

abbrev five : List ℤ
five = pos 5 ∷ []

abbrev more : List ℤ
more = pos 6 ∷ pos 0 ∷ pos 9 ∷ []

one_token : hash five [] [] ≡ ((pos 0 ∷ pos 5 ∷ []), (35 ∷ 135 ∷ 235 ∷ 335 ∷ []))
unfolding hash_rows to_u64 pad prev window context term mix head_rows gram_rows write_rows
    token_loop carry
one_token = refl

hash_rows-append_example :
    hash (five ++ more) (pos 8 ∷ []) (1 ∷ [])
    ≡ (let after = hash five (pos 8 ∷ []) (1 ∷ []) in hash more after.0 after.1)
hash_rows-append_example =
    Batches.hash_rows-append table (omega arith) five more (pos 8 ∷ []) (1 ∷ [])

hash_rows-after_eos_example :
    ((hash ((more ++ pos 0 ∷ []) ++ five) (pos 8 ∷ []) []).1
      ≡ (hash five [] (hash (more ++ pos 0 ∷ []) (pos 8 ∷ []) []).1).1)
    × ((hash five (more ++ pos 0 ∷ []) []).1 ≡ (hash five [] []).1)
hash_rows-after_eos_example =
    Segments.hash_rows-after_eos table (omega arith) more five (pos 8 ∷ []) []

-- The names of the modes are read back.
mode_names :
    (parse_mode (mode_name Mode.off) ≡ some Mode.off)
    × (parse_mode (mode_name Mode.disk) ≡ some Mode.disk)
    × (parse_mode (mode_name Mode.ram) ≡ some Mode.ram)
unfolding parse_mode mode_name bytes_eq
mode_names = (refl, refl, refl)
