-- ===== src/Ngram/Hash/Loop.antt =====
-- The token loop of `hash_rows` writes each token's rows into the token's own part of the output.
use questwend.Prelude.{
  ℕ, zero, suc, ◌+◌, ◌-◌, ◌*◌, ◌≤◌, ◌<◌, ◌≡◌, refl, ◌∙◌, ap, List, [], ◌∷◌, ◌++◌, length, set,
  length-set, All, All-append, arith,
}
use questwend.Prelude.Indexing.{set-append_left}
use questwend.Prelude.Int.{ℤ}
use questwend.Ngram.Hash.{Geometry, context, head_rows, gram_rows, write_rows, token_loop}

pub length-write_rows :
    (base : ℕ) (rows : List (ℕ × ℕ)) (out : List ℕ) → length (write_rows base rows out) ≡ length out
unfolding write_rows
length-write_rows base [] out = refl
length-write_rows base ((hi, row) ∷ rows) out =
    length-write_rows base rows (set out (base + hi) row) ∙ length-set out (base + hi) row

write_rows-append :
    (base heads : ℕ) (rows : List (ℕ × ℕ)) (xs ys : List ℕ)
    → All (λ r. r.0 < heads) rows
    → base + heads ≤ length xs
    → write_rows base rows (xs ++ ys) ≡ write_rows base rows xs ++ ys
unfolding write_rows
write_rows-append base heads [] xs ys h fit = refl
write_rows-append base heads ((hi, row) ∷ rows) xs ys (h, hs) fit =
    rw (set-append_left xs ys (base + hi) row (omega arith)) (
      write_rows-append base heads rows (set xs (base + hi) row) ys hs
        (omega (arith, length-set xs (base + hi) row)))

head_rows-All :
    (im : Geometry) (mixed left hi heads : ℕ)
    → hi + left ≤ heads
    → All (λ r. r.0 < heads) (head_rows im mixed left hi)
unfolding head_rows
head_rows-All im mixed zero hi heads h = tt
head_rows-All im mixed (suc left) hi heads h =
    (omega arith, head_rows-All im mixed left (hi + 1) heads (omega arith))

first_part : (k l p heads : ℕ) → (k + suc l) * p ≤ heads → k * p + p ≤ heads
first_part k l p heads h = omega arith

pub gram_rows-All :
    (im : Geometry) (ctx : List ℤ) (left g heads : ℕ)
    → 2 ≤ g
    → (g - 2 + left) * im.per_gram ≤ heads
    → All (λ r. r.0 < heads) (gram_rows im ctx left g)
unfolding gram_rows
gram_rows-All im ctx zero g heads two h = tt
gram_rows-All im ctx (suc left) g heads two h =
    All-append (λ r. r.0 < heads) (head_rows im _ im.per_gram ((g - 2) * im.per_gram))
      (gram_rows im ctx left (g + 1))
      (head_rows-All im _ im.per_gram ((g - 2) * im.per_gram) heads
        (first_part (g - 2) left im.per_gram heads h))
      (gram_rows-All im ctx left (g + 1) heads (omega arith)
        (let e : g + 1 - 2 + left ≡ g - 2 + suc left = omega arith in rw e h))

-- The loop over any function from a token's place to its rows.
pub row_loop : ℕ → (ℕ → List (ℕ × ℕ)) → ℕ → ℕ → ℕ → List ℕ → List ℕ
row_loop heads rows base zero i out = out
row_loop heads rows base (suc left) i out =
    row_loop heads rows base left (i + 1) (write_rows (base + i * heads) (rows i) out)

-- The rows of token `i`.
unfoldable pub rows_of : Geometry → List ℤ → List ℤ → ℕ → List (ℕ × ℕ)
rows_of im prev_hist tokens i = gram_rows im (context im prev_hist tokens i) (im.ngram - 1) 2

pub token_loop-row_loop :
    (im : Geometry) (prev_hist tokens : List ℤ) (base left i : ℕ) (out : List ℕ)
    → token_loop im prev_hist tokens base left i out
      ≡ row_loop im.n_heads (rows_of im prev_hist tokens) base left i out
unfolding token_loop row_loop rows_of
token_loop-row_loop im prev_hist tokens base zero i out = refl
token_loop-row_loop im prev_hist tokens base (suc left) i out =
    token_loop-row_loop im prev_hist tokens base left (i + 1) _

first_token : (i l heads : ℕ) → i * heads + heads ≤ (i + suc l) * heads
first_token i l heads = omega arith

module _ (heads : ℕ) where
  pub length-row_loop :
      (f : ℕ → List (ℕ × ℕ)) (base left i : ℕ) (out : List ℕ)
      → length (row_loop heads f base left i out) ≡ length out
  unfolding row_loop
  length-row_loop f base zero i out = refl
  length-row_loop f base (suc left) i out =
      length-row_loop f base left (i + 1) _ ∙ length-write_rows (base + i * heads) (f i) out

  -- Only the rows of the places in range matter.
  pub row_loop_cong :
      (f g : ℕ → List (ℕ × ℕ)) (base left i : ℕ) (out : List ℕ)
      → ((k : ℕ) → i ≤ k → k < i + left → f k ≡ g k)
      → row_loop heads f base left i out ≡ row_loop heads g base left i out
  unfolding row_loop
  row_loop_cong f g base zero i out same = refl
  row_loop_cong f g base (suc left) i out same =
      rw (same i (omega arith) (omega arith))
        (row_loop_cong f g base left (i + 1) _ (λ k h h'. same k (omega arith) (omega arith)))

  pub row_loop-add :
      (f : ℕ → List (ℕ × ℕ)) (base m n total i j : ℕ) (out : List ℕ)
      → total ≡ m + n
      → j ≡ i + m
      → row_loop heads f base total i out
        ≡ row_loop heads f base n j (row_loop heads f base m i out)
  unfolding row_loop
  row_loop-add f base zero n total i j out e e' =
      let t : total ≡ n = omega arith in let u : j ≡ i = omega arith in rw (t, u)
  row_loop-add f base (suc m) n zero i j out e e' = absurd (omega arith)
  row_loop-add f base (suc m) n (suc total) i j out e e' =
      row_loop-add f base m n total (i + 1) j _ (omega arith) (omega arith)

  -- A loop that starts at token `m` is a loop from the first token, further on in the output.
  pub row_loop_shift :
      (f : ℕ → List (ℕ × ℕ)) (base m base' left i j : ℕ) (out : List ℕ)
      → base' ≡ base + m * heads
      → j ≡ m + i
      → row_loop heads f base left j out ≡ row_loop heads (λ k. f (m + k)) base' left i out
  unfolding row_loop
  row_loop_shift f base m base' zero i j out e e' = refl
  row_loop_shift f base m base' (suc left) i j out e e' =
      let place : base + j * heads ≡ base' + i * heads = rw (e, e') (omega arith) in
      rw (place, ap f e') (row_loop_shift f base m base' left (i + 1) (j + 1) _ e (omega arith))

  -- What stands behind the part of the looped tokens is not touched.
  pub row_loop-append :
      (f : ℕ → List (ℕ × ℕ)) (base left i : ℕ) (xs ys : List ℕ)
      → ((k : ℕ) → All (λ r. r.0 < heads) (f k))
      → base + (i + left) * heads ≤ length xs
      → row_loop heads f base left i (xs ++ ys) ≡ row_loop heads f base left i xs ++ ys
  unfolding row_loop
  row_loop-append f base zero i xs ys inside fit = refl
  row_loop-append f base (suc left) i xs ys inside fit =
      rw
        (write_rows-append (base + i * heads) heads (f i) xs ys (inside i)
          (omega (arith, first_token i left heads)))
        (row_loop-append f base left (i + 1) _ ys inside
          (omega (arith, length-write_rows (base + i * heads) (f i) xs)))
