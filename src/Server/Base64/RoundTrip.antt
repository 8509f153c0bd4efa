-- ===== src/Server/Base64/RoundTrip.antt =====
-- `base64_decode` against the encoding of RFC 4648.
use questwend.Prelude.{
  ltb, not, ◌&&◌, ◌||◌, ℕ, ◌+◌, ◌-◌, ◌*◌, ◌/◌, ◌%◌, ◌^◌, ◌<◌, ◌≡◌, refl, sym, ap, ◌∙◌, [], ◌∷◌,
  Bytes, Bool, true, false, none, some, leb, ◌==◌, if◌then◌else◌, bit_and, bit_or, arith, All,
  Bool-cases, Option-cases, inl, inr,
}
use questwend.Prelude.Bits.{bit_or_low6, bit_and_255}
use questwend.Prelude.Table.{passes, test_of_passes}
use questwend.Server.Base64.{alphabet, table_from, sextet, decode_loop, base64_decode}

-- The character of six bits, by table 1 of RFC 4648.
unfoldable pub char_of : ℕ → ℕ
char_of v =
    if ltb v 26
    then 0x41 + v
    else if ltb v 52
    then 0x61 + (v - 26)
    else if ltb v 62
    then 0x30 + (v - 52)
    else if v == 62
    then 0x2B
    else 0x2F

-- Is a character one of that table? Capitals, small letters, digits, `+` and `/`.
unfoldable pub is_base64 : ℕ → Bool
is_base64 c =
    (leb 0x41 c && leb c 0x5A)
    || ((leb 0x61 c && leb c 0x7A) || ((leb 0x30 c && leb c 0x39) || (c == 0x2B || c == 0x2F)))

-- The digits of bytes in base 64, without the padding.
unfoldable pub to_base64 : Bytes → Bytes
to_base64 [] = []
to_base64 (a ∷ []) = char_of (a / 4) ∷ char_of (a % 4 * 16) ∷ []
to_base64 (a ∷ b ∷ []) = char_of (a / 4) ∷ char_of (a % 4 * 16 + b / 16) ∷ char_of (b % 16 * 4) ∷ []
to_base64 (a ∷ b ∷ c ∷ bytes) =
    char_of (a / 4)
    ∷ char_of (a % 4 * 16 + b / 16)
    ∷ char_of (b % 16 * 4 + c / 64)
    ∷ char_of (c % 64)
    ∷ to_base64 bytes

abbrev IsByte : ℕ → Type 0
IsByte b = b < 256

-- A text without the characters that are not of the table.
unfoldable pub significant : Bytes → Bytes
significant [] = []
significant (c ∷ s) = let rest = significant s in if is_base64 c then c ∷ rest else rest

-- The code's table has just those characters.
abbrev agrees : ℕ → Bool
agrees c = elim (sextet c) [ none ↦ not (is_base64 c) | some v ↦ is_base64 c ]

sextet-is_base64 : (c : ℕ) → c < 256 → agrees c ≡ true
unfolding sextet is_base64 alphabet table_from passes
sextet-is_base64 c h = test_of_passes agrees {k = c} 256 h refl

decode-skip :
    (c : ℕ) (s : Bytes) (acc bits : ℕ)
    → sextet c ≡ none
    → decode_loop (c ∷ s) acc bits ≡ decode_loop s acc bits
unfolding decode_loop
decode-skip c s acc bits e = rw (e, decode_loop) refl

abbrev joined : ℕ → ℕ → ℕ
joined acc v = bit_or (acc * 2 ^ 6 % 2 ^ 32) v

decode-take :
    (c v : ℕ) (s : Bytes) (acc bits : ℕ)
    → sextet c ≡ some v
    → decode_loop (c ∷ s) acc bits ≡ (
        if leb 8 (bits + 6)
        then bit_and (joined acc v / 2 ^ (bits + 6 - 8)) 0xFF
          ∷ decode_loop s (joined acc v) (bits + 6 - 8)
        else decode_loop s (joined acc v) (bits + 6))
unfolding decode_loop
decode-take c v s acc bits e =
    rw (e, decode_loop)
      (elim (Bool-cases (leb 8 (bits + 6))) [ inl full ↦ rw full refl | inr few ↦ rw few refl ])

decode_loop-significant :
    (s : Bytes) (acc bits : ℕ)
    → All IsByte s
    → decode_loop (significant s) acc bits ≡ decode_loop s acc bits
unfolding significant
decode_loop-significant [] acc bits all = refl
decode_loop-significant (c ∷ s) acc bits (hc, all) = elim (Option-cases (sextet c)) [
  | inl e ↦
      let other : is_base64 c ≡ false = ground (arith, sextet-is_base64 c hc) in
      rw (decode-skip c s acc bits e)
        (rw (other, significant) (decode_loop-significant s acc bits all))
  | inr (v, e) ↦
      let one : is_base64 c ≡ true = ground (arith, sextet-is_base64 c hc) in
      let rest = λ (a b : ℕ). decode_loop-significant s a b all in
      rw (decode-take c v s acc bits e)
        (rw (one, significant) (rw (decode-take c v (significant s) acc bits e) (simp rest)))
]

abbrev is_inverse : ℕ → Bool
is_inverse v = elim (sextet (char_of v)) [ none ↦ false | some u ↦ u == v ]

sextet-char_of : (v : ℕ) → v < 64 → sextet (char_of v) ≡ some v
unfolding sextet char_of alphabet table_from passes
sextet-char_of v h = ground (arith, test_of_passes is_inverse {k = v} 64 h refl)

shifted : (acc v : ℕ) → v < 64 → bit_or (acc * 2 ^ 6 % 2 ^ 32) v ≡ acc % 2 ^ 26 * 64 + v
shifted acc v h =
    let e : acc * 2 ^ 6 % 2 ^ 32 ≡ acc % 2 ^ 26 * 64 = omega arith in
    rw e (bit_or_low6 (acc % 2 ^ 26) v h)

-- A digit that completes a byte, with `left + 2` bits left over before it.
decode-byte :
    (v left byte : ℕ) (s : Bytes) (acc : ℕ)
    → v < 64
    → (acc % 2 ^ 26 * 64 + v) / 2 ^ left % 256 ≡ byte
    → decode_loop (char_of v ∷ s) acc (left + 2) ≡ byte ∷ decode_loop s (acc % 2 ^ 26 * 64 + v) left
decode-byte v left byte s acc h e =
    let full : leb 8 (left + 2 + 6) ≡ true = ground arith in
    let bits : left + 2 + 6 - 8 ≡ left = omega arith in
    decode-take (char_of v) v s acc (left + 2) (sextet-char_of v h)
    ∙ rw full (
        rw bits (
          rw (shifted acc v h) (rw (bit_and_255 ((acc % 2 ^ 26 * 64 + v) / 2 ^ left)) (rw e refl))))

-- Bytes one, two and three of a group; the next byte's first bits are left over.
decode-first :
    (a w : ℕ) (s : Bytes) (acc : ℕ)
    → a < 256
    → w < 64
    → w / 16 ≡ a % 4
    → (left : ℕ) × (left % 16 ≡ w % 16)
      × (decode_loop (char_of (a / 4) ∷ char_of w ∷ s) acc 0 ≡ a ∷ decode_loop s left 4)
decode-first a w s acc ha hw high =
    let v = a / 4 in
    let acc' = acc % 2 ^ 26 * 64 + v in
    (
      acc' % 2 ^ 26 * 64 + w,
      omega arith,
      decode-take (char_of v) v (char_of w ∷ s) acc 0 (sextet-char_of v (omega arith))
          ∙ rw (shifted acc v (omega arith)) (decode-byte w 4 a s acc' hw (omega arith)),
    )

decode-second :
    (b w : ℕ) (s : Bytes) (acc : ℕ)
    → b < 256
    → w < 64
    → w / 4 ≡ b % 16
    → acc % 16 ≡ b / 16
    → (left : ℕ) × (left % 4 ≡ w % 4)
      × (decode_loop (char_of w ∷ s) acc 4 ≡ b ∷ decode_loop s left 2)
decode-second b w s acc hb hw high e =
    (acc % 2 ^ 26 * 64 + w, omega arith, decode-byte w 2 b s acc hw (omega arith))

decode-third :
    (c : ℕ) (s : Bytes) (acc : ℕ)
    → c < 256
    → acc % 4 ≡ c / 64
    → (left : ℕ) × (decode_loop (char_of (c % 64) ∷ s) acc 2 ≡ c ∷ decode_loop s left 0)
decode-third c s acc hc e =
    (acc % 2 ^ 26 * 64 + c % 64, decode-byte (c % 64) 0 c s acc (omega arith) (omega arith))

decode-end : (acc bits : ℕ) → decode_loop [] acc bits ≡ []
unfolding decode_loop
decode-end acc bits = refl

decode_loop-to_base64 :
    (bytes : Bytes) (acc : ℕ) → All IsByte bytes → decode_loop (to_base64 bytes) acc 0 ≡ bytes
unfolding to_base64
decode_loop-to_base64 [] acc all = decode-end acc 0
decode_loop-to_base64 (a ∷ []) acc (ha, all) =
    let (left, low, e) = decode-first a (a % 4 * 16) [] acc ha (omega arith) (omega arith) in
    e ∙ ap (λ s. a ∷ s) (decode-end left 4)
decode_loop-to_base64 (a ∷ b ∷ []) acc (ha, (hb, all)) =
    let w = a % 4 * 16 + b / 16 in
    let v = b % 16 * 4 in
    let (left, low, e) = decode-first a w (char_of v ∷ []) acc ha (omega arith) (omega arith) in
    let (left', low', e') =
      decode-second b v [] left hb (omega arith) (omega arith) (omega arith) in
    e ∙ ap (λ s. a ∷ s) (e' ∙ ap (λ s. b ∷ s) (decode-end left' 2))
decode_loop-to_base64 (a ∷ b ∷ c ∷ bytes) acc (ha, (hb, (hc, all))) =
    let s = char_of (c % 64) ∷ to_base64 bytes in
    let w = a % 4 * 16 + b / 16 in
    let v = b % 16 * 4 + c / 64 in
    let (left, low, e) = decode-first a w (char_of v ∷ s) acc ha (omega arith) (omega arith) in
    let (left', low', e') = decode-second b v s left hb (omega arith) (omega arith) (omega arith) in
    let (left'', e'') = decode-third c (to_base64 bytes) left' hc (omega arith) in
    let rest = decode_loop-to_base64 bytes left'' all in
    e ∙ ap (λ s. a ∷ s) (e' ∙ ap (λ s. b ∷ s) (e'' ∙ ap (λ s. c ∷ s) rest))

-- If the bytes of a text, less those that are not of the base 64 alphabet of RFC 4648 (padding, line
-- ends and any others), are the encoding of some bytes, then `base64_decode` returns those bytes.
pub base64_decode-to_base64 :
    (text bytes : Bytes)
    → All IsByte text
    → All IsByte bytes
    → significant text ≡ to_base64 bytes
    → base64_decode text ≡ bytes
unfolding base64_decode
base64_decode-to_base64 text bytes chars all same =
    sym (decode_loop-significant text 0 0 chars)
    ∙ ap (λ s. decode_loop s 0 0) same
    ∙ decode_loop-to_base64 bytes 0 all
