-- ===== src/Tokenizer/Split/Lossless.antt =====
-- The pieces of a split, joined, are the text, if every piece ends behind its start and inside the
-- array.
use questwend.Prelude.{
  ℕ, zero, suc, ◌+◌, ◌-◌, ◌≤◌, ◌<◌, ◌≡◌, List, [], ◌∷◌, Bytes, flatten, ltb, arith, length, drop,
  take, sym, cut_at, drop_all, ltb→lt, Bool-cases, inl, inr,
}
use questwend.Tokenizer.Utf8.{Codepoint, utf8_decode}
use questwend.Tokenizer.Utf8.Tiling.{Tiled, utf8_decode-Tiled}
use questwend.Tokenizer.Split.{at, emit, split_from, split_all}

-- The byte at which codepoint `i` starts, counted from the start of the first.
boundary : ℕ → List Codepoint → ℕ → ℕ
boundary s cs zero = s
boundary s [] (suc i) = s
boundary s (c ∷ cs) (suc i) = boundary (s + c.len) cs i

at_start :
    (s size : ℕ) (cs : List Codepoint) (i : ℕ)
    → Tiled s size cs
    → i < length cs
    → (at cs i).off ≡ boundary s cs i
unfolding at boundary
at_start s size [] i t h = absurd (omega arith)
at_start s size (c ∷ cs) zero t h = t.0
at_start s size (c ∷ cs) (suc i) t h = at_start (s + c.len) size cs i t.3 (omega arith)

at_end :
    (s size : ℕ) (cs : List Codepoint) (i : ℕ)
    → Tiled s size cs
    → i < length cs
    → (at cs i).off + (at cs i).len ≡ boundary s cs (suc i)
unfolding at boundary
at_end s size [] i t h = absurd (omega arith)
at_end s size (c ∷ []) zero t h = omega arith
at_end s size (c ∷ d ∷ cs) zero t h = omega arith
at_end s size (c ∷ cs) (suc i) t h = at_end (s + c.len) size cs i t.3 (omega arith)

boundary_all :
    (s size : ℕ) (cs : List Codepoint) → Tiled s size cs → size ≤ boundary s cs (length cs)
unfolding boundary
boundary_all s size [] t = t
boundary_all s size (c ∷ cs) t = boundary_all (s + c.len) size cs t.3

le-boundary : (s : ℕ) (cs : List Codepoint) (i : ℕ) → s ≤ boundary s cs i
unfolding boundary
le-boundary s cs zero = omega arith
le-boundary s [] (suc i) = omega arith
le-boundary s (c ∷ cs) (suc i) = omega (arith, le-boundary (s + c.len) cs i)

boundary_mono : (s : ℕ) (cs : List Codepoint) (i j : ℕ) → i ≤ j → boundary s cs i ≤ boundary s cs j
unfolding boundary
boundary_mono s cs zero j h = le-boundary s cs j
boundary_mono s cs (suc i) zero h = absurd (omega arith)
boundary_mono s [] (suc i) (suc j) h = omega arith
boundary_mono s (c ∷ cs) (suc i) (suc j) h = boundary_mono (s + c.len) cs i j (omega arith)

-- Every piece ends behind its start, and inside the array.
abbrev pub Advances : (List Codepoint → ℕ → ℕ) → Type 0
Advances piece_end =
    (cps : List Codepoint) (i : ℕ)
    → i < length cps
    → (i < piece_end cps i) × (piece_end cps i ≤ length cps)

module _ (piece_end : List Codepoint → ℕ → ℕ) (advances : Advances piece_end) (text : Bytes) where
  emit_lem :
      (cps : List Codepoint) (i j : ℕ)
      → Tiled 0 (length text) cps
      → i < j
      → j ≤ length cps
      → emit text cps i j
        ≡ take (boundary 0 cps j - boundary 0 cps i) (drop (boundary 0 cps i) text) ∷ []
  unfolding emit
  emit_lem cps i (suc j) t h k = ground (
    arith,
    at_start 0 (length text) cps i t (omega arith),
    at_end 0 (length text) cps j t (omega arith),
  )
  emit_lem cps i zero t h k = absurd (omega arith)

  split_from_lossless :
      (fuel : ℕ) (cps : List Codepoint) (i : ℕ)
      → Tiled 0 (length text) cps
      → length cps ≤ i + fuel
      → i ≤ length cps
      → flatten (split_from piece_end fuel text cps i) ≡ drop (boundary 0 cps i) text
  unfolding split_from flatten
  split_from_lossless zero cps i t h k =
      let e : i ≡ length cps = omega arith in
      sym (rw e (drop_all _ text (boundary_all 0 (length text) cps t)))
  split_from_lossless (suc fuel) cps i t h k =
      let j = piece_end cps i in
      elim (Bool-cases (ltb i (length cps))) [
        | inl more ↦
            let (past, inside) = advances cps i (ltb→lt _ _ more) in
            rw (more, emit_lem cps i j t past inside)
              (rw (split_from_lossless fuel cps j t (omega arith) inside) (
                cut_at (boundary 0 cps i) (boundary 0 cps j) text
                  (boundary_mono 0 cps i j (omega arith))))
        | inr done ↦
            let e : i ≡ length cps = ground arith in
            rw done (sym (rw e (drop_all _ text (boundary_all 0 (length text) cps t))))
      ]

  -- Nothing of the text is lost, added or moved, whatever bytes it holds.
  pub split_all_lossless : flatten (split_all piece_end text) ≡ text
  unfolding split_all boundary
  split_all_lossless =
      let cps = utf8_decode text in
      split_from_lossless (length cps) cps 0 (utf8_decode-Tiled text) (omega arith) (omega arith)
