-- ===== src/Server/Stream/Holdback.antt =====
-- `marker_holdback`: no marker is cut.
use questwend.Prelude.{
  ℕ, zero, suc, ◌-◌, ◌≤◌, ◌<◌, ◌≡◌, refl, [], ◌∷◌, ◌++◌, Bytes, Bool, true, false, leb, leb→le,
  ◌==◌, min, length, length-drop, take, drop, bytes_eq, begins_with, arith, Bool-cases, inl, inr,
}
use mathlib.Core.Path.{subst}
use questwend.Prelude.Indexing.{drop-append}
use questwend.Chat.Trim.{is_ws, end_without}
use questwend.Server.Stream.{partial_marker, marker_holdback}

end_without_le : (p : ℕ → Bool) (s : Bytes) (e : ℕ) → end_without p s e ≤ e
unfolding end_without
end_without_le p s zero = omega arith
end_without_le p s (suc e) = ground (arith, end_without_le p s e)

partial_marker_le : (s marker : Bytes) (n : ℕ) → partial_marker s marker n ≤ n
unfolding partial_marker
partial_marker_le s marker zero = omega arith
partial_marker_le s marker (suc n) = ground (arith, partial_marker_le s marker n)

-- The loop finds the longest end of the text that the marker begins with.
partial_marker-longest :
    (s marker : Bytes) (max n : ℕ)
    → n ≤ max
    → bytes_eq (drop (length s - n) s) (take n marker) ≡ true
    → n ≤ partial_marker s marker max
unfolding partial_marker
partial_marker-longest s marker zero n le h = omega arith
partial_marker-longest s marker (suc max) n le h = elim (Bool-cases (n == suc max)) [
  | inl last ↦ let e : n ≡ suc max = ground arith in ground (arith, e)
  | inr before ↦ ground (arith, partial_marker-longest s marker max n (ground arith) h)
]

-- A marker that begins before the end of a text and does not end in it.
pub begun :
    (marker end later : Bytes)
    → begins_with marker (end ++ later) ≡ true
    → begins_with marker end ≡ false
    → (length end < length marker) × (bytes_eq end (take (length end) marker) ≡ true)
unfolding begins_with bytes_eq
begun [] end later h k = absurd (ground arith)
begun (m ∷ marker) [] later h k = (omega arith, refl)
begun (m ∷ marker) (c ∷ end) later h k =
    let rest = begun marker end later (ground arith) (ground arith) in
    (omega (arith, rest.0), ground (arith, rest.1))

-- If the marker stands at a place of the text so far and what follows it, and not in the text so far
-- alone, then that place is among the bytes held back: what is emitted never has a part of a marker
-- that later text completes.
pub marker_holdback-safe :
    (s later marker : Bytes) (p : ℕ)
    → begins_with marker (drop p (s ++ later)) ≡ true
    → begins_with marker (drop p s) ≡ false
    → length s - marker_holdback s marker ≤ p
unfolding marker_holdback
marker_holdback-safe s later marker p h k = elim (Bool-cases (leb p (length s))) [
  | inr beyond ↦ ground arith
  | inl inside ↦
      let cut = drop-append p s later (ground arith) in
      let (short, same) = begun marker (drop p s) later (rw (← cut) h) k in
      let size = length-drop p s in
      let maxk = min (length s) (length marker - 1) in
      let back : length s - (length s - p) ≡ p = ground arith in
      let same' = subst (λ n. bytes_eq (drop p s) (take n marker) ≡ true) size same in
      let long =
        partial_marker-longest s marker maxk (length s - p) (omega arith) (rw back same') in
      omega (
        arith,
        long,
        partial_marker_le s marker maxk,
        end_without_le is_ws s (length s - partial_marker s marker maxk),
        leb→le p (length s) inside,
      )
]
