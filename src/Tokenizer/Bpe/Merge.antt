-- ===== src/Tokenizer/Bpe/Merge.antt =====
-- The merge loop of `bpe_encode_piece`: which pair a round merges, and what the loop ends with.
use questwend.Prelude.{
  ℕ, zero, suc, ◌+◌, ◌≤◌, ◌<◌, ◌≡◌, ◌⊎◌, inl, inr, refl, ap, List, [], ◌∷◌, ◌++◌, append_assoc,
  Bytes, Option, none, some, flatten, ltb, length, arith, Bool-cases, Option-cases, ltb→lt, ◌∙◌,
}
use questwend.Prelude.Dict.{Dict, bytes_key, lookup}
use questwend.Tokenizer.Bpe.{int_max, best_pair, merge_at, merge_loop}

-- The rank of the pair of symbols `j` and `j + 1`, if they are there and the merge table has them.
abbrev pub pair_rank : Dict Bytes ℕ → List Bytes → ℕ → Option ℕ
pair_rank ranks [] j = none
pair_rank ranks (a ∷ []) j = none
pair_rank ranks (a ∷ b ∷ rest) zero = lookup (a ++ 0x20 ∷ b) ranks
pair_rank ranks (a ∷ b ∷ rest) (suc j) = pair_rank ranks (b ∷ rest) j

-- `k` is the first of the pairs of the lowest rank, and this rank is below `bound`.
pub record IsBest (ranks : Dict Bytes ℕ) (symbols : List Bytes) (bound k r : ℕ) : Type 0 where
  pub has_rank : pair_rank ranks symbols k ≡ some r
  pub below : r < bound
  pub lowest : (j s : ℕ) → pair_rank ranks symbols j ≡ some s → r ≤ s
  pub first : (j s : ℕ) → pair_rank ranks symbols j ≡ some s → j < k → r < s

-- No pair has a rank below `bound`.
abbrev pub NoneBelow : Dict Bytes ℕ → List Bytes → ℕ → Type 0
NoneBelow ranks symbols bound = (j s : ℕ) → pair_rank ranks symbols j ≡ some s → bound ≤ s

Outcome : Dict Bytes ℕ → List Bytes → ℕ → ℕ → Option ℕ → Option ℕ → Type 0
Outcome ranks symbols i bound old new =
    (new ≡ old) × NoneBelow ranks symbols bound
    ⊎ ((d : ℕ) × (r : ℕ) × (new ≡ some (i + d)) × IsBest ranks symbols bound d r)

module _ (ranks : Dict Bytes ℕ) where
  NoneBelow-cons :
      (a b : Bytes) (rest : List Bytes) (bound : ℕ)
      → ((s : ℕ) → lookup (a ++ 0x20 ∷ b) ranks ≡ some s → bound ≤ s)
      → NoneBelow ranks (b ∷ rest) bound
      → NoneBelow ranks (a ∷ b ∷ rest) bound
  NoneBelow-cons a b rest bound head tail zero s e = head s e
  NoneBelow-cons a b rest bound head tail (suc j) s e = tail j s e

  -- The best pair of the rest is that of the whole if the first pair has a higher rank.
  IsBest-later :
      (a b : Bytes) (rest : List Bytes) (bound k r : ℕ)
      → ((s : ℕ) → lookup (a ++ 0x20 ∷ b) ranks ≡ some s → r < s)
      → IsBest ranks (b ∷ rest) bound k r
      → IsBest ranks (a ∷ b ∷ rest) bound (suc k) r
  IsBest-later a b rest bound k r head t = record {
    has_rank = t.has_rank;
    below = t.below;
    lowest = lowest';
    first = first';
  }
    where
      lowest' : (j s : ℕ) → pair_rank ranks (a ∷ b ∷ rest) j ≡ some s → r ≤ s
      lowest' zero s e = omega (arith, head s e)
      lowest' (suc j) s e = t.lowest j s e

      first' : (j s : ℕ) → pair_rank ranks (a ∷ b ∷ rest) j ≡ some s → j < suc k → r < s
      first' zero s e h = head s e
      first' (suc j) s e h = t.first j s e (omega arith)

  IsBest-head :
      (a b : Bytes) (rest : List Bytes) (bound r : ℕ)
      → lookup (a ++ 0x20 ∷ b) ranks ≡ some r
      → r < bound
      → NoneBelow ranks (b ∷ rest) r
      → IsBest ranks (a ∷ b ∷ rest) bound 0 r
  IsBest-head a b rest bound r e h tail = record {
    has_rank = e;
    below = h;
    lowest = NoneBelow-cons a b rest r (λ s e'. ground arith) tail;
    first = λ j s e' h'. absurd (omega arith);
  }

  Outcome-skip :
      (a b : Bytes) (rest : List Bytes) (i bound : ℕ) (old new : Option ℕ)
      → ((s : ℕ) → lookup (a ++ 0x20 ∷ b) ranks ≡ some s → bound ≤ s)
      → Outcome ranks (b ∷ rest) (i + 1) bound old new
      → Outcome ranks (a ∷ b ∷ rest) i bound old new
  unfolding Outcome
  Outcome-skip a b rest i bound old new head (inl (same, tail)) =
      inl (same, NoneBelow-cons a b rest bound head tail)
  Outcome-skip a b rest i bound old new head (inr (d, r, e, best)) = inr (
    suc d,
    r,
    e ∙ ap {B = Option ℕ} some {x = i + 1 + d} (omega arith),
    IsBest-later a b rest bound d r (λ s e'. omega (arith, head s e', best.below)) best,
  )

  Outcome-take :
      (a b : Bytes) (rest : List Bytes) (i bound r : ℕ) (old new : Option ℕ)
      → lookup (a ++ 0x20 ∷ b) ranks ≡ some r
      → r < bound
      → Outcome ranks (b ∷ rest) (i + 1) r (some i) new
      → Outcome ranks (a ∷ b ∷ rest) i bound old new
  unfolding Outcome
  Outcome-take a b rest i bound r old new here h (inl (same, tail)) = inr (
    0,
    r,
    same ∙ ap {B = Option ℕ} some {x = i} (omega arith),
    IsBest-head a b rest bound r here h tail,
  )
  Outcome-take a b rest i bound r old new here h (inr (d, q, e, best)) =
      let later = IsBest-later a b rest r d q (λ s e'. ground (arith, best.below)) best in
      inr (
        suc d,
        q,
        e ∙ ap {B = Option ℕ} some {x = i + 1 + d} (omega arith),
        record {
          has_rank = later.has_rank;
          below = omega (arith, best.below);
          lowest = later.lowest;
          first = later.first;
        },
      )

  best_pair-Outcome :
      (symbols : List Bytes) (i bound : ℕ) (old : Option ℕ)
      → Outcome ranks symbols i bound old (best_pair ranks symbols i bound old)
  unfolding best_pair
  best_pair-Outcome [] i bound old = unfold Outcome in inl (refl, λ j s e. ground arith)
  best_pair-Outcome (a ∷ []) i bound old = unfold Outcome in inl (refl, λ j s e. ground arith)
  best_pair-Outcome (a ∷ b ∷ rest) i bound old =
      elim (Option-cases (lookup (a ++ 0x20 ∷ b) ranks)) [
        | inl missing ↦
            rw (missing, best_pair)
              (Outcome-skip a b rest i bound old _ (λ s e. ground arith)
                (best_pair-Outcome (b ∷ rest) (i + 1) bound old))
        | inr (r, here) ↦ elim (Bool-cases (ltb r bound)) [
          | inl lower ↦
              rw (here, best_pair, lower)
                (Outcome-take a b rest i bound r old _ here (ltb→lt _ _ lower)
                  (best_pair-Outcome (b ∷ rest) (i + 1) r (some i)))
          | inr higher ↦
              rw (here, best_pair, higher)
                (Outcome-skip a b rest i bound old _ (λ s e. ground arith)
                  (best_pair-Outcome (b ∷ rest) (i + 1) bound old))
        ]
      ]

  -- A round of the merge loop takes the first of the adjacent pairs of the lowest rank, and takes
  -- none only if no adjacent pair has a rank below the largest `int`.
  pub best_pair_correct :
      (symbols : List Bytes)
      → (best_pair ranks symbols 0 int_max none ≡ none) × NoneBelow ranks symbols int_max
        ⊎ ((k : ℕ) × (r : ℕ) × (best_pair ranks symbols 0 int_max none ≡ some k)
            × IsBest ranks symbols int_max k r)
  unfolding Outcome
  best_pair_correct symbols = elim (best_pair-Outcome symbols 0 int_max none) [
    | inl nothing ↦ inl nothing
    | inr (k, r, e, best) ↦ inr (k, r, e ∙ ap {B = Option ℕ} some {x = 0 + k} (omega arith), best)
  ]

  pair_rank-lt :
      (symbols : List Bytes) (k r : ℕ) → pair_rank ranks symbols k ≡ some r → suc k < length symbols
  pair_rank-lt [] k r e = ground arith
  pair_rank-lt (a ∷ []) k r e = ground arith
  pair_rank-lt (a ∷ b ∷ rest) zero r e = omega arith
  pair_rank-lt (a ∷ b ∷ rest) (suc k) r e = omega (arith, pair_rank-lt (b ∷ rest) k r e)

pub flatten-merge_at :
    (i : ℕ) (symbols : List Bytes) → flatten (merge_at i symbols) ≡ flatten symbols
unfolding merge_at flatten
flatten-merge_at i [] = refl
flatten-merge_at i (a ∷ []) = refl
flatten-merge_at zero (a ∷ b ∷ rest) = append_assoc a b (flatten rest)
flatten-merge_at (suc i) (a ∷ b ∷ rest) = ap (◌++◌ a) (flatten-merge_at i (b ∷ rest))

length-merge_at :
    (i : ℕ) (symbols : List Bytes)
    → suc i < length symbols
    → length (merge_at i symbols) + 1 ≡ length symbols
unfolding merge_at
length-merge_at i [] h = absurd (omega arith)
length-merge_at i (a ∷ []) h = absurd (omega arith)
length-merge_at zero (a ∷ b ∷ rest) h = omega arith
length-merge_at (suc i) (a ∷ b ∷ rest) h = omega (arith, length-merge_at i (b ∷ rest) (omega arith))

-- Merging moves no byte: the symbols spell the same text.
pub flatten-merge_loop :
    (fuel : ℕ) (ranks : Dict Bytes ℕ) (symbols : List Bytes)
    → flatten (merge_loop fuel ranks symbols) ≡ flatten symbols
unfolding merge_loop
flatten-merge_loop zero ranks symbols = refl
flatten-merge_loop (suc fuel) ranks symbols =
    elim (Option-cases (best_pair ranks symbols 0 int_max none)) [
      | inl nothing ↦ rw nothing (ground arith)
      | inr (k, found) ↦
          let ih =
            flatten-merge_loop fuel ranks (merge_at k symbols) ∙ flatten-merge_at k symbols in
          rw found (ground (arith, ih))
    ]

NoneBelow-short :
    (ranks : Dict Bytes ℕ) (symbols : List Bytes) (bound : ℕ)
    → length symbols ≤ 1
    → NoneBelow ranks symbols bound
NoneBelow-short ranks [] bound h j s e = ground arith
NoneBelow-short ranks (a ∷ []) bound h j s e = ground arith
NoneBelow-short ranks (a ∷ b ∷ rest) bound h j s e = absurd (omega arith)

-- With as much fuel as symbols the loop ends for its own reason: no two neighbours can be merged.
pub merge_loop_done :
    (fuel : ℕ) (ranks : Dict Bytes ℕ) (symbols : List Bytes)
    → length symbols ≤ fuel
    → NoneBelow ranks (merge_loop fuel ranks symbols) int_max
unfolding merge_loop
merge_loop_done zero ranks symbols h = NoneBelow-short ranks symbols int_max (omega arith)
merge_loop_done (suc fuel) ranks symbols h = elim (Bool-cases (ltb 1 (length symbols))) [
  | inr short ↦ rw short (NoneBelow-short ranks symbols int_max (ground arith))
  | inl long ↦ rw long (elim (best_pair_correct ranks symbols) [
    | inl (e, done) ↦ rw e done
    | inr (k, r, e, best) ↦
        let p = pair_rank-lt ranks symbols k r best.has_rank in
        let shorter = length-merge_at k symbols p in
        rw e (merge_loop_done fuel ranks (merge_at k symbols) (omega (arith, shorter)))
  ])
]
