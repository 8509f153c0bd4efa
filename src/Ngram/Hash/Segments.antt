-- ===== src/Ngram/Hash/Segments.antt =====
-- The segment boundary: nothing before an EOS token reaches the rows of what follows it.
use questwend.Prelude.{
  ℕ, zero, suc, ◌+◌, ◌-◌, ◌≤◌, ◌≡◌, refl, sym, ◌∙◌, ap, List, [], ◌∷◌, ◌++◌, append_assoc,
  append-nil, Bool, true, false, leb, ltb, length, length-drop, drop, drop_all, ◌*◌, length-append,
  replicate, get_or, arith, Bool-cases, inl, inr,
}
use questwend.Prelude.Indexing.{get_or-append_right, get_or-drop}
use questwend.Prelude.Int.{ℤ, pos, negsuc}
use questwend.Ngram.Hash.{Geometry, int_eq, pad, prev, window, context, gram_rows, carry, hash_rows}
use questwend.Ngram.Hash.Batches.{hash_rows-append}
use questwend.Ngram.Hash.Loop.{rows_of, token_loop-row_loop, row_loop_cong}

int_eq_refl : (x : ℤ) → int_eq x x ≡ true
int_eq_refl (pos n) = ground arith
int_eq_refl (negsuc n) = ground arith

get_or-replicate : (k j : ℕ) (e : ℤ) → get_or (replicate k e) j e ≡ e
get_or-replicate zero j e = refl
get_or-replicate (suc k) zero e = refl
get_or-replicate (suc k) (suc j) e = get_or-replicate k j e

module _ (im : Geometry) where
  -- The newest token of the history is the boundary, or there is none.
  abbrev EndsInEos : List ℤ → Type 0
  EndsInEos hist = get_or hist (length hist - 1) im.eos ≡ im.eos

  pad-EndsInEos_nil : EndsInEos (pad im [])
  unfolding pad
  pad-EndsInEos_nil = elim (Bool-cases (ltb 0 (im.ngram - 1))) [
    | inl short ↦ rw (short, append-nil) (get_or-replicate (im.ngram - 1 - 0) _ im.eos)
    | inr enough ↦ rw enough refl
  ]

  snoc-EndsInEos : (hist : List ℤ) → EndsInEos (hist ++ im.eos ∷ [])
  snoc-EndsInEos hist =
      get_or-append_right hist (im.eos ∷ []) 0 _ im.eos
        (omega (arith, length-append {0} hist (im.eos ∷ [])))

  prev_boundary :
      (hist tokens : List ℤ) (i : ℕ) → EndsInEos hist → prev im hist tokens i (i + 1) ≡ im.eos
  unfolding prev
  prev_boundary hist tokens i e =
      let one : i + 1 - i ≡ 1 = omega arith in
      let place = ap (λ (k : ℕ). get_or hist (length hist - k) im.eos) one in ground (arith, place)

  -- Behind the cut there is only the boundary.
  window_cut_off :
      (h h' t : List ℤ) (i left s : ℕ) → window im h t i left s true ≡ window im h' t i left s true
  unfolding window
  window_cut_off h h' t i zero s = refl
  window_cut_off h h' t i (suc left) s = ap (◌∷◌ im.eos) (window_cut_off h h' t i left (s + 1))

  window_forgets :
      (h h' t : List ℤ) (i left s : ℕ) (cut : Bool)
      → EndsInEos h
      → EndsInEos h'
      → s ≤ i + 1
      → window im h t i left s cut ≡ window im h' t i left s cut
  unfolding window
  window_forgets h h' t i zero s cut e e' le = refl
  window_forgets h h' t i (suc left) s true e e' le =
      ap (◌∷◌ im.eos) (window_cut_off h h' t i left (s + 1))
  window_forgets h h' t i (suc left) s false e e' le = elim (Bool-cases (leb s i)) [
    | inl inside ↦
        let same : prev im h t i s ≡ prev im h' t i s = unfold prev in ground arith in
        rw same (
          ap (◌∷◌ (prev im h' t i s)) (
            window_forgets h h' t i left (s + 1) (int_eq (prev im h' t i s) im.eos) e e'
              (ground arith)))
    | inr outside ↦
        let here : s ≡ i + 1 = ground arith in
        rw (here, prev_boundary h t i e, prev_boundary h' t i e', int_eq_refl)
          (ap (◌∷◌ im.eos) (window_cut_off h h' t i left (i + 1 + 1)))
  ]

  -- The rows of a batch after a history that ends in EOS.
  hash_rows-forgets :
      (hist tokens : List ℤ) (out : List ℕ)
      → EndsInEos (pad im hist)
      → (hash_rows im tokens hist out).1 ≡ (hash_rows im tokens [] out).1
  unfolding hash_rows
  hash_rows-forgets hist tokens out ends =
      let h = pad im hist in
      let h' = pad im [] in
      let n = length tokens in
      token_loop-row_loop im h tokens (length out) n 0 _
      ∙ row_loop_cong im.n_heads (rows_of im h tokens) (rows_of im h' tokens) (length out) n 0 _
          (λ k low high.
            unfold rows_of context in
            ap (λ w. gram_rows im (get_or tokens k im.eos ∷ w) (im.ngram - 1) 2)
              (window_forgets h h' tokens k (im.ngram - 1) 1 false ends pad-EndsInEos_nil
                (omega arith)))
      ∙ sym (token_loop-row_loop im h' tokens (length out) n 0 _)

  drop-EndsInEos : (n : ℕ) (hist : List ℤ) → EndsInEos hist → EndsInEos (drop n hist)
  drop-EndsInEos n hist ends = elim (Bool-cases (ltb n (length hist))) [
    | inl inside ↦
        let size = length-drop n hist in
        get_or-drop n hist (length (drop n hist) - 1) (length hist - 1) im.eos
          (ground (arith, size))
        ∙ ends
    | inr all ↦ rw (drop_all n hist (ground arith)) refl
  ]

  pad-EndsInEos : (hist : List ℤ) → EndsInEos hist → EndsInEos (pad im hist)
  unfolding pad
  pad-EndsInEos [] ends = pad-EndsInEos_nil
  pad-EndsInEos (x ∷ hist) ends =
      let h = x ∷ hist in
      let front = replicate (im.ngram - 1 - length h) im.eos in
      elim (Bool-cases (ltb (length h) (im.ngram - 1))) [
        | inl short ↦ rw short (
            get_or-append_right front h (length h - 1) (length (front ++ h) - 1) im.eos
              (omega (arith, length-append front h))
            ∙ ends)
        | inr enough ↦ rw enough ends
      ]

  carry-EndsInEos : (h before : List ℤ) → EndsInEos (carry im h (before ++ im.eos ∷ []))
  unfolding carry
  carry-EndsInEos h before =
      let all = h ++ (before ++ im.eos ∷ []) in
      drop-EndsInEos (length all - (im.ngram - 1)) all
        (rw (← append_assoc h before (im.eos ∷ [])) (snoc-EndsInEos (h ++ before)))

  -- Where the rows of a token fit its part of the output: the tokens behind an EOS, in the same batch or
  -- in one after a history that ends in EOS, have the rows that they have at the start of a sequence,
  -- whatever stands before the EOS.
  pub hash_rows-after_eos :
      (im.ngram - 1) * im.per_gram ≤ im.n_heads
      → (before tokens hist : List ℤ) (out : List ℕ)
      → let first = before ++ im.eos ∷ [] in
        ((hash_rows im (first ++ tokens) hist out).1
          ≡ (hash_rows im tokens [] (hash_rows im first hist out).1).1)
        × ((hash_rows im tokens first out).1 ≡ (hash_rows im tokens [] out).1)
  hash_rows-after_eos fits before tokens hist out =
      let first = before ++ im.eos ∷ [] in
      let (h, o) = hash_rows im first hist out in
      let ends : EndsInEos h = unfold hash_rows in carry-EndsInEos (pad im hist) before in
      (
        ap (λ r. r.1) (hash_rows-append im fits first tokens hist out)
            ∙ hash_rows-forgets h tokens o (pad-EndsInEos h ends),
        hash_rows-forgets first tokens out (pad-EndsInEos first (snoc-EndsInEos before)),
      )
