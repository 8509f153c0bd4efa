-- ===== src/Ngram/Hash/Batches.antt =====
-- Hashing a sequence in two batches gives what a single batch gives.
use questwend.Prelude.{
  ℕ, zero, suc, ◌+◌, ◌-◌, ◌*◌, ◌≤◌, ◌<◌, ◌≡◌, refl, sym, ◌∙◌, ap, ap₂, List, ◌∷◌, ◌++◌,
  append_assoc, Bool, false, ◌||◌, if◌then◌else◌, length, length-append, length-drop,
  length-replicate, drop, replicate, get_or, All, arith,
}
use questwend.Prelude.Indexing.{
  get_or-append_left, get_or-append_right, get_or-drop, drop-append, drop-drop, replicate-add,
}
use questwend.Prelude.Int.{ℤ}
use questwend.Ngram.Hash.{Geometry, int_eq, pad, prev, window, context, gram_rows, carry, hash_rows}
use questwend.Ngram.Hash.Loop.{
  row_loop, rows_of, token_loop-row_loop, length-row_loop, row_loop_cong, row_loop-add,
  row_loop_shift, row_loop-append, gram_rows-All,
}

module _ (im : Geometry) where
  -- A predecessor is an entry of the history and the batch joined.
  prev-append :
      (hist tokens : List ℤ) (i s : ℕ)
      → i < length tokens
      → 1 ≤ s
      → s ≤ length hist + i
      → prev im hist tokens i s ≡ get_or (hist ++ tokens) (length hist + i - s) im.eos
  unfolding prev
  prev-append hist tokens i s inside pos reach = ground (
    arith,
    get_or-append_right hist tokens (i - s) (length hist + i - s) im.eos,
    get_or-append_left hist tokens (length hist - (s - i)) im.eos,
    (let e : s ≤ i → length hist + i - s ≡ length hist + (i - s) = λ h. omega arith in e),
    (let e : i < s → length hist + i - s ≡ length hist - (s - i) = λ h. omega arith in e),
  )

  window_cong :
      (h t h' t' : List ℤ) (i i' left s : ℕ) (cut : Bool)
      → ((r : ℕ) → s ≤ r → r < s + left → prev im h t i r ≡ prev im h' t' i' r)
      → window im h t i left s cut ≡ window im h' t' i' left s cut
  unfolding window
  window_cong h t h' t' i i' zero s cut same = refl
  window_cong h t h' t' i i' (suc left) s cut same = rw (same s (omega arith) (omega arith)) (
      let v = if cut then im.eos else prev im h' t' i' s in
      ap (◌∷◌ v) (
        window_cong h t h' t' i i' left (s + 1) (cut || int_eq v im.eos)
          (λ r low high. same r (omega arith) (omega arith))))

  length-pad : (hist : List ℤ) → im.ngram - 1 ≤ length (pad im hist)
  unfolding pad
  length-pad hist = ground (
    arith,
    length-append {0} (replicate (im.ngram - 1 - length hist) im.eos) hist,
    length-replicate {0} (im.ngram - 1 - length hist) im.eos,
  )

  pad_full : (hist : List ℤ) → im.ngram - 1 ≤ length hist → pad im hist ≡ hist
  unfolding pad
  pad_full hist h = ground arith

  module _ (hist first second : List ℤ) (full : im.ngram - 1 ≤ length hist) where
    keep : ℕ
    keep = im.ngram - 1

    cut_at_keep : ℕ
    cut_at_keep = length hist + length first - keep

    carried : List ℤ
    carried = carry im hist first

    carried-drop : carried ≡ drop cut_at_keep (hist ++ first)
    unfolding carried carry cut_at_keep keep
    carried-drop =
        ap (λ (k : ℕ). drop k (hist ++ first)) (omega (arith, length-append {0} hist first))

    length-carried : length carried ≡ keep
    unfolding cut_at_keep keep
    length-carried =
        rw carried-drop
          (omega (arith, length-append {0} hist first, length-drop {0} cut_at_keep (hist ++ first)))

    joined : carried ++ second ≡ drop cut_at_keep (hist ++ (first ++ second))
    unfolding cut_at_keep keep
    joined =
        rw (carried-drop, ← append_assoc)
          (sym (
            drop-append cut_at_keep (hist ++ first) second
              (omega (arith, length-append {0} hist first))))

    all : List ℤ
    all = hist ++ (first ++ second)

    length-all : length all ≡ length hist + length first + length second
    unfolding all
    length-all =
        omega (arith, length-append {0} hist (first ++ second), length-append {0} first second)

    carry-carried : carry im carried second ≡ carry im hist (first ++ second)
    unfolding carry cut_at_keep keep all
    carry-carried = rw joined (
        drop-drop (length (drop cut_at_keep all) - keep) cut_at_keep (length all - keep) all
          (omega (arith, length-all, length-drop {0} cut_at_keep all)))

    prev_second :
        (k r : ℕ)
        → k < length second
        → 1 ≤ r
        → r < 1 + keep
        → prev im hist (first ++ second) (length first + k) r ≡ prev im carried second k r
    unfolding cut_at_keep keep all
    prev_second k r h low high =
        let place = length hist + (length first + k) - r in
        prev-append hist (first ++ second) (length first + k) r
          (omega (arith, length-append {0} first second)) low (omega arith)
        ∙ sym (
            get_or-drop cut_at_keep all (length carried + k - r) place im.eos
              (omega (arith, length-carried)))
        ∙ ap (λ xs. get_or xs (length carried + k - r) im.eos) (sym joined)
        ∙ sym (prev-append carried second k r h low (omega (arith, length-carried)))

    prev_first :
        (k r : ℕ)
        → k < length first
        → 1 ≤ r
        → r < 1 + keep
        → prev im hist (first ++ second) k r ≡ prev im hist first k r
    unfolding keep
    prev_first k r h low high =
        let place = length hist + k - r in
        prev-append hist (first ++ second) k r (omega (arith, length-append {0} first second)) low
          (omega arith)
        ∙ ap (λ xs. get_or xs place im.eos) (sym (append_assoc hist first second))
        ∙ get_or-append_left (hist ++ first) second place im.eos
            (omega (arith, length-append {0} hist first))
        ∙ sym (prev-append hist first k r h low (omega arith))

    context_second :
        (k : ℕ)
        → k < length second
        → context im hist (first ++ second) (length first + k) ≡ context im carried second k
    unfolding context keep
    context_second k h =
        ap₂ ◌∷◌ (get_or-append_right first second k (length first + k) im.eos refl) (
          window_cong hist (first ++ second) carried second (length first + k) k keep 1 false
            (λ r low high. prev_second k r h low high))

    context_first :
        (k : ℕ) → k < length first → context im hist (first ++ second) k ≡ context im hist first k
    unfolding context keep
    context_first k h = ap₂ ◌∷◌ (get_or-append_left first second k im.eos h) (
        window_cong hist (first ++ second) hist first k k keep 1 false
          (λ r low high. prev_first k r h low high))

  module _ (fits : (im.ngram - 1) * im.per_gram ≤ im.n_heads) where
    rows_inside :
        (hist tokens : List ℤ) (k : ℕ) → All (λ r. r.0 < im.n_heads) (rows_of im hist tokens k)
    unfolding rows_of
    rows_inside hist tokens k =
        gram_rows-All im (context im hist tokens k) (im.ngram - 1) 2 im.n_heads (omega arith)
          (let e : 2 - 2 + (im.ngram - 1) ≡ im.ngram - 1 = omega arith in rw e fits)

    -- The output of a batch over a history that is long enough.
    output : List ℤ → List ℤ → List ℕ → List ℕ
    output hist tokens out =
        row_loop im.n_heads (rows_of im hist tokens) (length out) (length tokens) 0
          (out ++ replicate (length tokens * im.n_heads) 0)

    length-output :
        (hist tokens : List ℤ) (out : List ℕ)
        → length (output hist tokens out) ≡ length out + length tokens * im.n_heads
    unfolding output
    length-output hist tokens out =
        let n = length tokens * im.n_heads in
        length-row_loop im.n_heads (rows_of im hist tokens) (length out) (length tokens) 0
          (out ++ replicate n 0)
        ∙ length-append out (replicate n 0)
        ∙ ap (λ (k : ℕ). length out + k) (length-replicate n 0)

    module _ (hist first second : List ℤ) (out : List ℕ) (full : im.ngram - 1 ≤ length hist) where
      whole : ℕ → List (ℕ × ℕ)
      whole = rows_of im hist (first ++ second)

      room : List ℤ → List ℕ
      room tokens = replicate (length tokens * im.n_heads) 0

      room-append : out ++ room (first ++ second) ≡ (out ++ room first) ++ room second
      unfolding room
      room-append =
          ap (λ xs. out ++ xs)
            (replicate-add (length first * im.n_heads) (length second * im.n_heads)
              (length (first ++ second) * im.n_heads) 0
              (rw (length-append first second) (omega arith)))
          ∙ sym (append_assoc out (room first) (room second))

      first_tokens :
          row_loop im.n_heads whole
            (length out)
            (length first)
            0
            ((out ++ room first) ++ room second)
          ≡ output hist first out ++ room second
      unfolding whole room output rows_of
      first_tokens =
          let base = length out in
          let xs = out ++ room first in
          let fit : base + (0 + length first) * im.n_heads ≤ length xs = omega (
            arith,
            length-append {0} out (room first),
            length-replicate {0} {A = ℕ} (length first * im.n_heads) 0,
          ) in
          row_loop-append im.n_heads whole base (length first) 0 xs (room second)
            (rows_inside hist (first ++ second)) fit
          ∙ ap (λ ys. ys ++ room second)
              (row_loop_cong im.n_heads whole (rows_of im hist first) base (length first) 0 xs
                (λ k low high.
                  ap (λ c. gram_rows im c (im.ngram - 1) 2)
                    (context_first hist first second full k (omega arith))))

      second_tokens :
          (start : List ℕ)
          → length start ≡ length out + length first * im.n_heads
          → row_loop im.n_heads whole
              (length out)
              (length second)
              (length first)
              (start ++ room second)
            ≡ output (carried hist first second full) second start
      unfolding whole room output rows_of
      second_tokens start e =
          row_loop_shift im.n_heads whole (length out) (length first) (length start) (length second)
            0 (length first) (start ++ room second) e (omega arith)
          ∙ row_loop_cong im.n_heads (λ k. whole (length first + k))
              (rows_of im (carried hist first second full) second) (length start) (length second) 0
              (start ++ room second)
              (λ k low high.
                ap (λ c. gram_rows im c (im.ngram - 1) 2)
                  (context_second hist first second full k (omega arith)))

      output-append :
          output hist (first ++ second) out
          ≡ output (carried hist first second full) second (output hist first out)
      unfolding output rows_of whole room
      output-append =
          let base = length out in
          ap (λ xs. row_loop im.n_heads whole base (length (first ++ second)) 0 xs) room-append
          ∙ row_loop-add im.n_heads whole base (length first) (length second)
              (length (first ++ second)) 0 (length first) ((out ++ room first) ++ room second)
              (length-append first second) (omega arith)
          ∙ ap (λ xs. row_loop im.n_heads whole base (length second) (length first) xs) first_tokens
          ∙ second_tokens (output hist first out) (length-output hist first out)

    hash_rows-output :
        (tokens hist : List ℤ) (out : List ℕ)
        → hash_rows im tokens hist out
          ≡ (carry im (pad im hist) tokens, output (pad im hist) tokens out)
    unfolding hash_rows output
    hash_rows-output tokens hist out =
        ap₂ (λ (a : List ℤ) (b : List ℕ). (a, b)) refl
          (token_loop-row_loop im (pad im hist) tokens (length out) (length tokens) 0 _)

    -- If the rows of a token fit its part of the output, hashing two batches one after the other,
    -- the second with the history that the first leaves, gives the history and the rows of hashing
    -- them as one batch. So a prompt may be cut anywhere, the history being empty or not.
    pub hash_rows-append :
        (first second hist : List ℤ) (out : List ℕ)
        → let after = hash_rows im first hist out in
          hash_rows im (first ++ second) hist out ≡ hash_rows im second after.0 after.1
    unfolding carried
    hash_rows-append first second hist out =
        let full = length-pad hist in
        let h = carried (pad im hist) first second full in
        let o = output (pad im hist) first out in
        let short : im.ngram - 1 ≤ length h =
          unfold keep in omega (arith, length-carried (pad im hist) first second full) in
        let pair = λ (a : List ℤ) (b : List ℕ). let r : List ℤ × List ℕ = (a, b) in r in
        hash_rows-output (first ++ second) hist out
        ∙ ap₂ pair (sym (carry-carried (pad im hist) first second full))
            (output-append (pad im hist) first second out full)
        ∙ sym (
            ap (λ (r : List ℤ × List ℕ). hash_rows im second r.0 r.1)
              (hash_rows-output first hist out)
            ∙ hash_rows-output second h o
            ∙ ap (λ (k : List ℤ). pair (carry im k second) (output k second o)) (pad_full h short))
