-- ===== src/Tokenizer/Utf8/Tiling.antt =====
-- The codepoints that `utf8_decode` finds in any bytes, valid UTF-8 or not, tile the text.
use questwend.Prelude.{
  ℕ, zero, suc, ◌+◌, ◌-◌, ◌≤◌, ◌<◌, ◌≡◌, List, [], ◌∷◌, Bytes, arith, length, drop, length-drop,
}
use questwend.Tokenizer.Utf8.{Codepoint, lead, decode_from, utf8_decode}

-- Each codepoint starts where the one before it ends, inside a text of `size` bytes, takes a byte
-- at least, and the last one reaches the end.
abbrev pub Tiled : ℕ → ℕ → List Codepoint → Type 0
Tiled i size [] = size ≤ i
Tiled i size (c ∷ cs) = (c.off ≡ i) × (i < size) × (0 < c.len) × Tiled (i + c.len) size cs

lead_pos : (c : ℕ) → 0 < (lead c).1
unfolding lead
lead_pos c = ground arith

decode_from-Tiled :
    (f i size : ℕ) (rest : Bytes)
    → length rest ≡ size - i
    → length rest ≤ f
    → Tiled i size (decode_from f i rest)
unfolding decode_from
decode_from-Tiled zero i size [] e h = omega arith
decode_from-Tiled zero i size (c ∷ rest) e h = absurd (omega arith)
decode_from-Tiled (suc f) i size [] e h = omega arith
decode_from-Tiled (suc f) i size (c ∷ rest) e h =
    let l = (lead c).1 in
    let p = lead_pos c in
    let d = length-drop {0} (l - 1) rest in
    (
      omega arith,
      omega arith,
      lead_pos c,
      decode_from-Tiled f (i + l) size (drop (l - 1) rest) (omega (arith, p, d))
          (omega (arith, p, d)),
    )

-- The codepoints found in any text tile it: they are in order, none is empty, none is skipped, and
-- together they reach the end.
pub utf8_decode-Tiled : (s : Bytes) → Tiled 0 (length s) (utf8_decode s)
unfolding utf8_decode
utf8_decode-Tiled s = decode_from-Tiled (length s) 0 (length s) s (omega arith) (omega arith)
